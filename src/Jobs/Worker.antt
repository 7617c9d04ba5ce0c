-- ===== src/Jobs/Worker.antt =====
-- The worker of src/workers/JobQueueWorker.ts over JobQueueService.ts: a job is taken, and then
-- completed, put off or given up, while jobs come in and timers fire.
use audio_block_backend.Base.{
  ℕ, ◌+◌, ◌≤◌, ◌<◌, max, ◌≡◌, refl, sym, ap, ◌∙◌, subst, inl, inr, true, false, Option, none, some,
  arith, String, eq_iff, ltb, if◌then◌else◌, Bool-cases, Option-cases, some_unique, count_rows,
  str_eq_refl,
}
use audio_block_backend.Jobs.{
  is_job, Job, JobStatus, pending, processing, completed, failed, JobConfig, JobQueue,
  backoff_delay, status_code, same_status, get_job, pop_next, reserve_job, reserve_id, reserve,
  complete, move_to_dlq, retry_later, fail, Handlers, settle_job,
}
use audio_block_backend.Jobs.Moves.{moved, moved-Moved, get_job-records, with_status-records}
use audio_block_backend.Jobs.Table.{
  with_status, count_id, waiting, places, is_id, places-retry, Popped, pop_next-Popped,
}
use audio_block_backend.Jobs.Sound.{IsIn, Tries, Sound, get_job-id, get_job-Moved}

-- An id that is popped is one of a pending job.
Popped-IsIn :
    {gone : ℕ} (id : String) (q q' : JobQueue) {held : Option Job}
    → Popped q id q'
    → Sound gone held q
    → (job : Job) × (get_job id q ≡ some job) × IsIn pending job
Popped-IsIn id q q' p v = elim (Option-cases (get_job id q)) [
  | inl e ↦ absurd (ground (arith, p.places_less id, v.located id, str_eq_refl id))
  | inr (job, e) ↦ (job, e, ground (arith, p.places_less id, v.located id, str_eq_refl id))
]

reserve_job-Sound :
    {gone : ℕ} (now : ℕ) (id : String) (job : Job) (q q' : JobQueue)
    → Popped q id q'
    → get_job id q ≡ some job
    → IsIn pending job
    → Sound gone none q
    → Sound gone (some (reserve_job now job q').0) (reserve_job now job q').1
unfolding reserve_job
reserve_job-Sound {gone} now id job q q' p found ready v =
    let tried = record job { attempts = job.attempts + 1 } in
    let m = moved-Moved processing now tried q' in
    let found' = get_job-records id q' q p.records ∙ found in
    let same_id = get_job-id id job q found in
    record {
      located = λ k. ground (
        arith,
        m.places_same k,
        m.get k,
        p.places_less k,
        v.located k,
        get_job-records k q' q p.records,
        eq_iff job.id k,
        eq_iff k id,
        same_id,
        found,
      );
      dead = λ k. ground (
        arith,
        m.dlq_same,
        p.dlq,
        m.get k,
        v.dead k,
        get_job-records k q' q p.records,
        eq_iff job.id k,
        same_id,
        found,
      );
      ids = m.ids (λ k. subst (λ rows. count_rows (is_job k) rows ≤ 1) (sym p.records) (v.ids k));
      counted =
          m.counts job (λ s. if same_status s completed then gone else 0)
            (ap (λ x. get_job x q') (sym same_id) ∙ found') (ground arith)
            (λ s.
              ap (λ (f : JobStatus → ℕ). f s) p.stats
              ∙ v.counted s
              ∙ ap (λ n. n + (if same_status s completed then gone else 0))
                  (sym (with_status-records s q' q p.records)));
      kept = λ j e.
          subst
            (λ (x : Job).
              (get_job x.id (moved processing now tried q') ≡ some x) × IsIn processing x)
            (some_unique _ refl e) (ground (arith, m.get job.id, str_eq_refl job.id), refl);
      alone = λ k j e r. elim (get_job-Moved m k j e) [
        | inl (_, same) ↦ ap some (sym same)
        | inr (_, before) ↦
            absurd (cc (v.alone k j (sym (get_job-records k q' q p.records) ∙ before) r))
      ];
      tries = λ k j e. elim (get_job-Moved m k j e) [
        | inl (_, same) ↦ subst Tries (sym same) (record {
          bounded = omega (arith, (v.tries id job found).left ready);
          left = λ h. absurd (ground arith);
        })
        | inr (_, before) ↦ v.tries k j (sym (get_job-records k q' q p.records) ∙ before)
      ];
    }

-- The worker takes the next job.
pub reserve-Sound :
    {gone : ℕ} (now : ℕ) (q : JobQueue)
    → Sound gone none q
    → Sound gone (reserve now q).0 (reserve now q).1
unfolding reserve reserve_id
reserve-Sound now q v = elim (Option-cases (pop_next q)) [
  | inl e ↦ rw (e, reserve) v
  | inr ((id, q'), e) ↦
      let p = pop_next-Popped q q' id e in
      let (job, found, ready) = Popped-IsIn id q q' p v in
      let found' = get_job-records id q' q p.records ∙ found in
      rw (e, found', reserve, reserve_id) (reserve_job-Sound now id job q q' p found ready v)
]

-- How the worker lets go of a job: it is moved to another status, and perhaps put in a place.
record Released (status : JobStatus) (now : ℕ) (job : Job) (q q' : JobQueue) : Type 0 where
  get : (id : String) → get_job id q' ≡ get_job id (moved status now job q)
  spots :
      (id : String)
      → places id q'
        ≡ places id (moved status now job q)
          + (if same_status status pending then is_id id job.id else 0)
  dead :
      (id : String)
      → count_id id q'.dlq
        ≡ count_id id (moved status now job q).dlq
          + (if same_status status failed then is_id id job.id else 0)
  stats : q'.stats ≡ (moved status now job q).stats
  rows : q'.records ≡ (moved status now job q).records
  counts : (s : JobStatus) → with_status s q' ≡ with_status s (moved status now job q)

Released-Sound :
    {gone : ℕ} (status : JobStatus) (now : ℕ) (error : Option String) (job : Job) (q q' : JobQueue)
    → same_status status processing ≡ false
    → (same_status status pending ≡ true → job.attempts < max 1 job.max_attempts)
    → Sound gone (some job) q
    → Released status now (record job { last_error = error }) q q'
    → Sound gone none q'
Released-Sound {gone} status now error job q q' idle again v r =
    let job' : Job = record job { last_error = error } in
    let m = moved-Moved status now job' q in
    let (found, running) = v.kept job refl in
    record {
      located = λ id. ground (
        arith,
        r.get id,
        r.spots id,
        m.places_same id,
        m.get id,
        v.located id,
        eq_iff job.id id,
        eq_iff id job.id,
      );
      dead = λ id. ground (
        arith,
        r.get id,
        r.dead id,
        m.dlq_same,
        m.get id,
        v.dead id,
        eq_iff job.id id,
        eq_iff id job.id,
      );
      ids = λ k. subst (λ rows. count_rows (is_job k) rows ≤ 1) (sym r.rows) (m.ids v.ids k);
      counted = λ s.
          ap (λ (f : JobStatus → ℕ). f s) r.stats
          ∙ m.counts job (λ k. if same_status k completed then gone else 0) found (ground arith)
              v.counted s
          ∙ ap (λ n. n + (if same_status s completed then gone else 0)) (sym (r.counts s));
      kept = λ j e. absurd (cc e);
      alone = λ id j e p. elim (get_job-Moved m id j (sym (r.get id) ∙ e)) [
        | inl (_, same) ↦ absurd (ground (arith, ap (λ (x : Job). status_code x.status) same))
        | inr (other, before) ↦
            let is_held = some_unique _ refl (v.alone id j before p) in
            absurd (other (ap (λ (x : Job). x.id) is_held ∙ sym (get_job-id id j q before)))
      ];
      tries = λ id j e. elim (get_job-Moved m id j (sym (r.get id) ∙ e)) [
        | inl (_, same) ↦
            subst Tries (sym same)
              (record { bounded = (v.tries job.id job found).bounded; left = again })
        | inr (_, before) ↦ v.tries id j before
      ];
    }

complete-Released :
    (now : ℕ) (job : Job) (q : JobQueue) → Released completed now job q (complete now job q)
unfolding complete
complete-Released now job q = record {
  get = λ id. refl;
  spots = λ id. omega arith;
  dead = λ id. omega arith;
  stats = refl;
  rows = refl;
  counts = λ s. refl;
}

retry_later-Released :
    (c : JobConfig) (now : ℕ) (job : Job) (q : JobQueue)
    → Released pending now job q (retry_later c now job q)
unfolding retry_later places waiting
retry_later-Released c now job q = record {
  get = λ id. get_job-records id _ (moved pending now job q) refl;
  spots = λ id.
      places-retry id (moved pending now job q)
        (record { job_id = job.id; priority = job.priority; delay = backoff_delay c job.attempts });
  dead = λ id. omega arith;
  stats = refl;
  rows = refl;
  counts = λ s. with_status-records s _ (moved pending now job q) refl;
}

move_to_dlq-Released :
    (now : ℕ) (job : Job) (q : JobQueue) → Released failed now job q (move_to_dlq now job q)
unfolding move_to_dlq count_id count_rows places
move_to_dlq-Released now job q = record {
  get = λ id. get_job-records id _ (moved failed now job q) refl;
  spots = λ id. omega arith;
  dead = λ id. ground arith;
  stats = refl;
  rows = refl;
  counts = λ s. with_status-records s _ (moved failed now job q) refl;
}

complete-Sound :
    {gone : ℕ} (now : ℕ) (job : Job) (q : JobQueue)
    → Sound gone (some job) q
    → Sound gone none (complete now job q)
complete-Sound now job q v =
    Released-Sound completed now job.last_error job q (complete now job q) refl
      (λ h. absurd (ground arith)) v (complete-Released now job q)

fail-Sound :
    {gone : ℕ} (c : JobConfig) (now : ℕ) (error : String) (job : Job) (q : JobQueue)
    → Sound gone (some job) q
    → Sound gone none (fail c now error job q).1
unfolding fail
fail-Sound c now error job q v = elim (Bool-cases (ltb job.attempts job.max_attempts)) [
  | inl more ↦
      rw (more, fail)
        (Released-Sound pending now (some error) job q _ refl (λ _. ground arith) v
          (retry_later-Released c now (record job { last_error = some error }) q))
  | inr last ↦
      rw (last, fail)
        (Released-Sound failed now (some error) job q _ refl (λ h. absurd (ground arith)) v
          (move_to_dlq-Released now (record job { last_error = some error }) q))
]

pub settle_job-Sound :
    {gone : ℕ} (c : JobConfig) (handlers : Handlers) (now : ℕ) (job : Job) (q : JobQueue)
    → Sound gone (some job) q
    → Sound gone none (settle_job c handlers now job q)
unfolding settle_job
settle_job-Sound c handlers now job q v = elim (Option-cases (handlers job.type)) [
  | inl e ↦ rw (e, settle_job) (fail-Sound c now _ job q v)
  | inr (handler, e) ↦ elim (Option-cases (handler job)) [
    | inl f ↦ rw (e, f, settle_job) (complete-Sound now job q v)
    | inr (error, f) ↦ rw (e, f, settle_job) (fail-Sound c now error job q v)
  ]
]
