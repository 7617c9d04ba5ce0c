-- ===== src/Jobs/Sound.antt =====
-- JobQueueService.ts and its worker lose no job, run none twice, and count them right.
use audio_block_backend.Base.{
  ℕ, ◌+◌, ◌≤◌, ◌<◌, max, ◌≡◌, refl, sym, ap, ◌∙◌, subst, ◌≢◌, ◌⊎◌, inl, inr, true, Option, none,
  some, arith, String, eq_iff, if◌then◌else◌, Bool-cases, Option-cases, some_unique, count_rows,
  find_row_fits, str_eq,
}
use audio_block_backend.Jobs.{
  Job, JobStatus, completed, pending, processing, failed, JobQueue, status_code, same_status,
  is_job, save_record, push_id, enqueue, get_job, remove_at, requeue,
}
use audio_block_backend.Jobs.Moves.{
  IdsOnce, save_record-IdsOnce, moved_job, Moved, get_job-records, with_status-records,
}
use audio_block_backend.Jobs.Table.{
  get_job-save_record, with_status, one_if, with_status-save_record, count_id, places, is_id,
  places-push_id, requeue-places,
}

abbrev pub IsIn : JobStatus → Job → Type 0
IsIn s job = same_status job.status s ≡ true

-- A job has been tried at most as often as it may be, and once less while it is pending.
pub record Tries (job : Job) : Type 0 where
  pub bounded : job.attempts ≤ max 1 job.max_attempts
  pub left : IsIn pending job → job.attempts < max 1 job.max_attempts

-- Each pending job stands in exactly one place that brings it to the worker: a queue, or a timer; a
-- failed one stands once in the dead-letter queue; a job in processing is the one that the worker
-- holds; other jobs stand nowhere. The counters count the records, that of the completed jobs with
-- those `gone`, whose records have expired.
pub record Sound (gone : ℕ) (held : Option Job) (q : JobQueue) : Type 0 where
  pub located : (id : String) → places id q ≡ one_if pending (get_job id q)
  pub dead : (id : String) → count_id id q.dlq ≡ one_if failed (get_job id q)
  pub counted :
      (s : JobStatus) → q.stats s ≡ with_status s q + (if same_status s completed then gone else 0)
  pub ids : IdsOnce q
  pub kept : (job : Job) → held ≡ some job → (get_job job.id q ≡ some job) × IsIn processing job
  pub alone :
      (id : String) (job : Job) → get_job id q ≡ some job → IsIn processing job → held ≡ some job
  pub tries : (id : String) (job : Job) → get_job id q ≡ some job → Tries job

pub get_job-id : (id : String) (job : Job) (q : JobQueue) → get_job id q ≡ some job → id ≡ job.id
unfolding get_job
get_job-id id job q e = ground (arith, find_row_fits (is_job id) q.records job e, eq_iff id job.id)

-- What is found after a move is the moved job, or another job that was there before.
pub get_job-Moved :
    {status : JobStatus} {now : ℕ} {job : Job} {q q' : JobQueue}
    → Moved status now job q q'
    → (id : String) (j : Job) → get_job id q' ≡ some j
    → ((job.id ≡ id) × (j ≡ moved_job status now job)) ⊎ ((job.id ≢ id) × (get_job id q ≡ some j))
get_job-Moved {status} {now} {job} {q} m id j e =
    let f : (if str_eq job.id id then some (moved_job status now job) else get_job id q) ≡ some j =
      sym (m.get id) ∙ e in
    elim (Bool-cases (str_eq job.id id)) [
      | inl h ↦ inl (ground (arith, eq_iff job.id id), some_unique _ (rw h at f) refl)
      | inr h ↦ inr (ground (arith, eq_iff job.id id), rw h at f)
    ]

-- What `enqueue` does to the lookups, the places and the counters.
enqueue_keeps :
    (job : Job) (q : JobQueue)
    → ((id : String)
        → get_job id (enqueue job q) ≡ (if str_eq job.id id then some job else get_job id q))
      × ((id : String) → places id (enqueue job q) ≡ places id q + is_id id job.id)
      × ((enqueue job q).dlq ≡ q.dlq)
      × ((s : JobStatus)
          → (enqueue job q).stats s ≡ q.stats s + (if same_status s pending then 1 else 0))
      × ((s : JobStatus) → with_status s (enqueue job q) ≡ with_status s (save_record job q))
unfolding enqueue save_record places
enqueue_keeps job q = (
  λ id. get_job-records id _ (save_record job q) refl ∙ get_job-save_record id job q,
  λ id. places-push_id id job.id job.priority (record (save_record job q) {
    stats = λ s. if same_status s pending then q.stats s + 1 else q.stats s;
  }),
  refl,
  λ s. ground arith,
  λ s. with_status-records s _ (save_record job q) refl,
)

get_job-enqueue :
    (job : Job) (q : JobQueue) (id : String) (j : Job)
    → get_job id (enqueue job q) ≡ some j
    → (job ≡ j) ⊎ (get_job id q ≡ some j)
get_job-enqueue job q id j e =
    let f : (if str_eq job.id id then some job else get_job id q) ≡ some j =
      sym ((enqueue_keeps job q).0 id) ∙ e in
    elim (Bool-cases (str_eq job.id id)) [
      | inl h ↦ inl (some_unique _ refl (rw h at f))
      | inr h ↦ inr (rw h at f)
    ]

enqueue_found :
    (job : Job) (q : JobQueue) (j : Job)
    → get_job j.id q ≡ some j
    → get_job job.id q ≡ none
    → get_job j.id (enqueue job q) ≡ some j
enqueue_found job q j e free = ground (arith, (enqueue_keeps job q).0 j.id, eq_iff job.id j.id)

enqueue-IdsOnce : (job : Job) (q : JobQueue) → IdsOnce q → IdsOnce (enqueue job q)
unfolding enqueue save_record push_id
enqueue-IdsOnce job q once = save_record-IdsOnce job q once

pub enqueue-Sound :
    {gone : ℕ} {held : Option Job} (job : Job) (q : JobQueue)
    → get_job job.id q ≡ none
    → job.status ≡ pending
    → job.attempts ≡ 0
    → Sound gone held q
    → Sound gone held (enqueue job q)
enqueue-Sound {gone} {held} job q free new untried v =
    let (get, spots, dlq, stats, counts) = enqueue_keeps job q in
    let code = ap status_code new in
    record {
      located =
          λ id. ground (arith, spots id, get id, v.located id, eq_iff job.id id, eq_iff id job.id);
      dead = λ id. ground (arith, dlq, get id, v.dead id, eq_iff job.id id);
      ids = enqueue-IdsOnce job q v.ids;
      counted =
          λ s. ground (arith, stats s, counts s, v.counted s, with_status-save_record s job q);
      kept = λ j e. (enqueue_found job q j (v.kept j e).0 free, (v.kept j e).1);
      alone = λ id j e r. elim (get_job-enqueue job q id j e) [
        | inl same ↦ absurd (ground (arith, code, ap (λ (x : Job). status_code x.status) same))
        | inr before ↦ v.alone id j before r
      ];
      tries = λ id j e. elim (get_job-enqueue job q id j e) [
        | inl same ↦
            subst Tries same
              (record { bounded = omega (arith, untried); left = λ _. omega (arith, untried) })
        | inr before ↦ v.tries id j before
      ];
    }

requeue_keeps :
    (n : ℕ) (q : JobQueue)
    → ((requeue n q).records ≡ q.records)
      × ((requeue n q).dlq ≡ q.dlq)
      × ((requeue n q).stats ≡ q.stats)
unfolding requeue push_id
requeue_keeps n q = elim (Option-cases (remove_at n q.retries)) [
  | inl e ↦ rw (e, requeue) (refl, refl, refl)
  | inr (r, e) ↦ rw (e, requeue) (refl, refl, refl)
]

pub requeue-Sound :
    {gone : ℕ} {held : Option Job} (n : ℕ) (q : JobQueue)
    → Sound gone held q
    → Sound gone held (requeue n q)
requeue-Sound {gone} {held} n q v =
    let (records, dlq, stats) = requeue_keeps n q in
    record {
      located = λ id.
          requeue-places n q id
          ∙ v.located id
          ∙ ap (one_if pending) (sym (get_job-records id _ q records));
      dead = λ id.
          ap (count_id id) dlq
          ∙ v.dead id
          ∙ ap (one_if failed) (sym (get_job-records id _ q records));
      ids = λ id. subst (λ rows. count_rows (is_job id) rows ≤ 1) (sym records) (v.ids id);
      counted = λ s.
          ap (λ (f : JobStatus → ℕ). f s) stats
          ∙ v.counted s
          ∙ ap (λ n. n + (if same_status s completed then gone else 0))
              (sym (with_status-records s _ q records));
      kept = λ j e. (get_job-records j.id _ q records ∙ (v.kept j e).0, (v.kept j e).1);
      alone = λ id j e. v.alone id j (sym (get_job-records id _ q records) ∙ e);
      tries = λ id j e. v.tries id j (sym (get_job-records id _ q records) ∙ e);
    }
