-- ===== src/Jobs/Moves.antt =====
-- A job of JobQueueService.ts goes to another status: `setStatus`, and then `saveRecord`.
use audio_block_backend.Base.{
  ℕ, ◌+◌, ◌≤◌, ◌≡◌, refl, sym, ap, ◌∙◌, subst, inl, inr, true, some, arith, String, eq_iff,
  if◌then◌else◌, Bool-cases, Option-cases, find_row, save_row, count_rows, find_row_fits,
  count_option, count_rows-save_row, count_rows-none, str_eq,
}
use audio_block_backend.Jobs.{
  Job, JobStatus, same_status, is_job, save_record, count_move, set_status, get_job, JobQueue,
}
use audio_block_backend.Jobs.Table.{
  get_job-save_record, with_status, one_if, with_status-save_record, places,
}

count_move_lem :
    (from to s : JobStatus) (stats : JobStatus → ℕ) (n m : ℕ)
    → stats s ≡ n
    → m + (if same_status from s then 1 else 0) ≡ n + (if same_status to s then 1 else 0)
    → (if same_status from to then stats s else count_move from to stats s) ≡ m
unfolding count_move
count_move_lem from to s stats n m e h = ground arith

-- A job goes to another status and is saved.
abbrev pub moved : JobStatus → ℕ → Job → JobQueue → JobQueue
moved status now job q = let (job', q') = set_status status now job q in save_record job' q'

abbrev pub moved_job : JobStatus → ℕ → Job → Job
moved_job status now job = record job { status = status; updated_at = now }

set_status_keeps :
    (status : JobStatus) (now : ℕ) (job : Job) (q : JobQueue)
    → ((set_status status now job q).1.records ≡ q.records)
      × ((s : JobStatus)
          → (set_status status now job q).1.stats s ≡ (
              if same_status job.status status
              then q.stats s
              else count_move job.status status q.stats s))
      × ((id : String) → places id (set_status status now job q).1 ≡ places id q)
      × ((set_status status now job q).1.dlq ≡ q.dlq)
unfolding set_status places
set_status_keeps status now job q = elim (Bool-cases (same_status job.status status)) [
  | inl e ↦ rw e (refl, λ s. refl, λ id. refl, refl)
  | inr e ↦ rw e (refl, λ s. refl, λ id. refl, refl)
]

-- No two records have an id.
abbrev pub IdsOnce : JobQueue → Type 0
IdsOnce q = (id : String) → count_rows (is_job id) q.records ≤ 1

pub save_record-IdsOnce : (job : Job) (q : JobQueue) → IdsOnce q → IdsOnce (save_record job q)
unfolding save_record
save_record-IdsOnce job q once id =
    let c = count_rows-save_row (is_job job.id) (is_job id) job q.records in
    elim (Option-cases (find_row (is_job job.id) q.records)) [
      | inl e ↦
          let c' : count_rows (is_job id) (save_row (is_job job.id) job q.records) + 0
              ≡ count_rows (is_job id) q.records + count_option (is_job id) (some job) =
            rw e at c in
          let none_there = count_rows-none (is_job job.id) q.records e in
          elim (Bool-cases (str_eq id job.id)) [
            | inl f ↦
                let same : job.id ≡ id = sym ((eq_iff id job.id).0 f) in
                let empty = subst (λ k. count_rows (is_job k) q.records ≡ 0) same none_there in
                ground (arith, c', empty)
            | inr f ↦ ground (arith, c', f, once id)
          ]
      | inr (x, e) ↦
          let c' : count_rows (is_job id) (save_row (is_job job.id) job q.records)
                + count_option (is_job id) (some x)
              ≡ count_rows (is_job id) q.records + count_option (is_job id) (some job) =
            rw e at c in
          let own = (eq_iff job.id x.id).0 (find_row_fits (is_job job.id) q.records x e) in
          ground (arith, c', once id, ap (λ k. str_eq id k) own)
    ]

-- What a move does to the lookups, the places and the counters.
pub record Moved (status : JobStatus) (now : ℕ) (job : Job) (q q' : JobQueue) : Type 0 where
  pub get :
      (id : String)
      → get_job id q' ≡ (if str_eq job.id id then some (moved_job status now job) else get_job id q)
  pub places_same : (id : String) → places id q' ≡ places id q
  pub dlq_same : q'.dlq ≡ q.dlq
  pub counts :
      (old : Job) (gone : JobStatus → ℕ)
      → get_job job.id q ≡ some old
      → same_status old.status job.status ≡ true
      → ((s : JobStatus) → q.stats s ≡ with_status s q + gone s)
      → (s : JobStatus) → q'.stats s ≡ with_status s q' + gone s
  pub ids : IdsOnce q → IdsOnce q'

pub get_job-records :
    (id : String) (p q : JobQueue) → p.records ≡ q.records → get_job id p ≡ get_job id q
unfolding get_job
get_job-records id p q e = ap (find_row (is_job id)) e

pub with_status-records :
    (s : JobStatus) (p q : JobQueue) → p.records ≡ q.records → with_status s p ≡ with_status s q
unfolding with_status
with_status-records s p q e = ap (count_rows (λ (j : Job). same_status j.status s)) e

places-save_record :
    (id : String) (job : Job) (q : JobQueue) → places id (save_record job q) ≡ places id q
unfolding places save_record
places-save_record id job q = refl

one_if_lem :
    (s : JobStatus) (old job : Job)
    → same_status old.status job.status ≡ true
    → one_if s (some old) ≡ (if same_status job.status s then 1 else 0)
one_if_lem s old job e = ground arith

pub moved-Moved :
    (status : JobStatus) (now : ℕ) (job : Job) (q : JobQueue)
    → Moved status now job q (moved status now job q)
unfolding save_record set_status
moved-Moved status now job q =
    let (records, stats, spots, dlq) = set_status_keeps status now job q in
    let qs = (set_status status now job q).1 in
    let job' = moved_job status now job in
    record {
      get = λ id.
          get_job-save_record id job' qs
          ∙ ap (λ o. if str_eq job.id id then some job' else o) (get_job-records id qs q records);
      places_same = λ id. places-save_record id job' qs ∙ spots id;
      dlq_same = dlq;
      ids = λ once.
          save_record-IdsOnce job' qs
            (λ id. subst (λ rows. count_rows (is_job id) rows ≤ 1) (sym records) (once id));
      counts = λ old gone found same counted s.
          stats s
          ∙ count_move_lem job.status status s q.stats (with_status s q + gone s)
              (with_status s (save_record job' qs) + gone s) (counted s)
              (omega (
                arith,
                with_status-save_record s job' qs,
                ap (one_if s) (get_job-records job.id qs q records ∙ found),
                one_if_lem s old job same,
                with_status-records s qs q records,
              ));
    }
