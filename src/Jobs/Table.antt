-- ===== src/Jobs/Table.antt =====
-- The records, the queues and the counters of JobQueueService.ts under its elementary changes.
use audio_block_backend.Base.{
  ℕ, zero, suc, ◌+◌, ◌≡◌, refl, sym, ap, ◌∙◌, subst, inl, inr, Option, some, List, [], ◌∷◌, ◌++◌,
  arith, String, eq_iff, if◌then◌else◌, Bool-cases, Option-cases, List-cases, some_unique,
  count_rows, find_row-save_row, find_row-save_row_other, count_rows-append, count_option,
  count_rows-save_row, str_eq, str_eq_refl,
}
use audio_block_backend.Jobs.{
  Job, JobPriority, critical, normal, low, JobStatus, Retry, JobQueue, same_priority, same_status,
  is_job, save_record, push_id, get_job, pop_queue, pop_next, remove_at, requeue,
}

pub get_job-save_record :
    (id : String) (job : Job) (q : JobQueue)
    → get_job id (save_record job q) ≡ (if str_eq job.id id then some job else get_job id q)
unfolding get_job save_record
get_job-save_record id job q = elim (Bool-cases (str_eq job.id id)) [
  | inl e ↦
      let same : job.id ≡ id = ground (arith, eq_iff job.id id) in
      rw (e, sym same) (find_row-save_row (is_job job.id) job q.records (str_eq_refl job.id))
  | inr e ↦ rw e (
      find_row-save_row_other (is_job job.id) (is_job id) job q.records
        (λ x h. ground (arith, eq_iff job.id x.id, eq_iff id x.id, eq_iff job.id id))
        (ground (arith, eq_iff id job.id, eq_iff job.id id)))
]

-- The number of jobs with a status.
unfoldable pub with_status : JobStatus → JobQueue → ℕ
with_status s q = count_rows (λ (j : Job). same_status j.status s) q.records

-- 1 for a job with the status.
abbrev pub one_if : JobStatus → Option Job → ℕ
one_if s o = count_option (λ (j : Job). same_status j.status s) o

pub with_status-save_record :
    (s : JobStatus) (job : Job) (q : JobQueue)
    → with_status s (save_record job q) + one_if s (get_job job.id q)
      ≡ with_status s q + one_if s (some job)
unfolding with_status save_record get_job
with_status-save_record s job q = count_rows-save_row (is_job job.id) _ job q.records

unfoldable pub count_id : String → List String → ℕ
count_id id ids = count_rows (str_eq id) ids

unfoldable pub waiting : String → List Retry → ℕ
waiting id rs = count_rows (λ (r : Retry). str_eq id r.job_id) rs

-- In how many places a job stands that will bring it to a worker.
unfoldable pub places : String → JobQueue → ℕ
places id q =
    count_id id (q.queues critical)
    + count_id id (q.queues normal)
    + count_id id (q.queues low)
    + waiting id q.retries

abbrev pub is_id : String → String → ℕ
is_id id k = if str_eq id k then 1 else 0

count_id-snoc :
    (id k : String) (ids : List String) → count_id id (ids ++ k ∷ []) ≡ count_id id ids + is_id id k
unfolding count_id count_rows
count_id-snoc id k ids = ground (arith, count_rows-append (str_eq id) ids (k ∷ []))

pub places-push_id :
    (id k : String) (p : JobPriority) (q : JobQueue)
    → places id (push_id p k q) ≡ places id q + is_id id k
unfolding places push_id
places-push_id id k critical q = omega (arith, count_id-snoc id k (q.queues critical))
places-push_id id k normal q = omega (arith, count_id-snoc id k (q.queues normal))
places-push_id id k low q = omega (arith, count_id-snoc id k (q.queues low))

-- What a pop does: one place of the id less, and nothing else changes.
pub record Popped (q : JobQueue) (id : String) (q' : JobQueue) : Type 0 where
  pub records : q'.records ≡ q.records
  pub dlq : q'.dlq ≡ q.dlq
  pub stats : q'.stats ≡ q.stats
  pub places_less : (k : String) → places k q' + is_id k id ≡ places k q

-- The queue of one priority without its first id.
without_first : JobPriority → List String → JobQueue → JobQueue
without_first p ids q = record q { queues = λ k. if same_priority k p then ids else q.queues k }

without_first-places :
    (p : JobPriority) (q : JobQueue) (id : String) (ids : List String) (k : String)
    → q.queues p ≡ id ∷ ids
    → places k (without_first p ids q) + is_id k id ≡ places k q
unfolding places count_id count_rows without_first
without_first-places critical q id ids k f = ground (arith, ap (count_id k) f)
without_first-places normal q id ids k f = ground (arith, ap (count_id k) f)
without_first-places low q id ids k f = ground (arith, ap (count_id k) f)

pop_queue-Popped :
    (p : JobPriority) (q q' : JobQueue) (id : String)
    → pop_queue p q ≡ some (id, q')
    → Popped q id q'
unfolding pop_queue without_first
pop_queue-Popped p q q' id e = elim (List-cases (q.queues p)) [
  | inl f ↦ absurd (cc (rw (f, pop_queue) at e))
  | inr (k, ks, f) ↦
      let same : (k, without_first p ks q) ≡ (id, q') =
        some_unique _ refl (rw (f, pop_queue) at e) in
      subst (λ (r : String × JobQueue). Popped q r.0 r.1) same
        (record {
          records = refl;
          dlq = refl;
          stats = refl;
          places_less = λ i. without_first-places p q k ks i f;
        })
]

pub pop_next-Popped : (q q' : JobQueue) (id : String) → pop_next q ≡ some (id, q') → Popped q id q'
unfolding pop_next
pop_next-Popped q q' id e = elim (Option-cases (pop_queue critical q)) [
  | inr (r, f) ↦ pop_queue-Popped critical q q' id (f ∙ rw (f, pop_next) at e)
  | inl f ↦ elim (Option-cases (pop_queue normal q)) [
    | inr (r, g) ↦ pop_queue-Popped normal q q' id (g ∙ rw (f, g, pop_next) at e)
    | inl g ↦ pop_queue-Popped low q q' id (rw (f, g, pop_next) at e)
  ]
]

waiting-append :
    (id : String) (rs : List Retry) (r : Retry)
    → waiting id (rs ++ r ∷ []) ≡ waiting id rs + is_id id r.job_id
unfolding waiting count_rows
waiting-append id rs r =
    ground (arith, count_rows-append (λ (x : Retry). str_eq id x.job_id) rs (r ∷ []))

pub places-retry :
    (id : String) (q : JobQueue) (r : Retry)
    → places id (record q { retries = q.retries ++ r ∷ [] }) ≡ places id q + is_id id r.job_id
unfolding places
places-retry id q r = omega (arith, waiting-append id q.retries r)

remove_at-waiting :
    (n : ℕ) (rs ys : List Retry) (r : Retry) (id : String)
    → remove_at n rs ≡ some (r, ys)
    → waiting id ys + is_id id r.job_id ≡ waiting id rs
unfolding remove_at waiting count_rows
remove_at-waiting n [] ys r id e = absurd (cc e)
remove_at-waiting zero (x ∷ rs) ys r id e = ground (arith, some_unique _ refl e)
remove_at-waiting (suc n) (x ∷ rs) ys r id e = elim (Option-cases (remove_at n rs)) [
  | inl f ↦ absurd (cc (rw (f, remove_at) at e))
  | inr ((y, zs), f) ↦ ground (arith, remove_at-waiting n rs zs y id f)
]

-- A timer that fires turns one kind of place into the other.
pub requeue-places : (n : ℕ) (q : JobQueue) (id : String) → places id (requeue n q) ≡ places id q
unfolding requeue
requeue-places n q id = elim (Option-cases (remove_at n q.retries)) [
  | inl f ↦ rw (f, requeue) refl
  | inr ((r, rs), f) ↦
      rw (f, requeue)
        (places-push_id id r.job_id r.priority (record q { retries = rs })
          ∙ unfold places in omega (arith, remove_at-waiting n q.retries rs r id f))
]
