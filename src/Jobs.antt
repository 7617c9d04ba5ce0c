-- ===== src/Jobs.antt =====
-- src/services/JobQueueService.ts and the loop of src/workers/JobQueueWorker.ts. What Redis keeps is
-- a record; a list of ids stands in the order in which it is read. The timers that put failed jobs
-- back are a list, and a timer fires as a step of its own. Ids, the time and the messages of errors
-- are arguments. The record of a completed job has a time to live: that Redis drops it is a step of
-- its own.
pub mod Table
pub mod Moves
pub mod Sound
pub mod Expiry
pub mod Worker
pub mod Runs
pub mod Delays
use audio_block_backend.Base.{
  ℕ, zero, suc, ◌+◌, ◌-◌, ◌*◌, ◌/◌, ◌%◌, ◌^◌, ◌≤◌, ◌<◌, min, max, compare, Ordering, ◌≡◌, refl, sym,
  ap, ◌∙◌, subst, fun_ext, ◌≢◌, ◌↔◌, ◌⊎◌, inl, inr, Bool, true, false, not, ◌&&◌, ◌||◌, Option,
  none, some, List, [], ◌∷◌, ◌++◌, map, append-nil, append_assoc, arith, String, eq_iff, ltb, leb,
  ◌==◌, if◌then◌else◌, ltb→lt, lt→ltb, leb→le, ==_iff, tests, Bool-cases, Option-cases, List-cases,
  or-false_right, some_unique, Outcome, Ensures, refuse, ◌>>=◌, >>=-ok_inv, ◌>>◌, >>=-Ensures,
  refuse-Ensures, Ensures-ok, Ensures-weaken, find_row, save_row, select_rows, delete_rows,
  count_rows, find_row_fits, find_row-save_row, find_row-save_row_other, find_row-delete_rows,
  find_row-delete_rows_other, find_row-append, find_row-append_some, count_rows-append,
  count_option, count_rows-save_row, select_rows-append, select_rows-delete_rows_other,
  select_rows-map_other, find_row-map, count_rows-map, count_rows-delete_rows, count_rows-none,
  delete_rows-append, find_row-append_other, find_row-uncounted, save_row-append, str_eq,
  str_eq_refl, ◌+s◌, non_empty, or_text, or_else, decimal, join_with, length, get_elem?, set,
  length-append, length-set, get_elem?-set_self, get_elem?-set_ne, get_or, take, drop, replicate,
  take-append-drop, length-take, length-drop, length-replicate, length-map, take-eq_self, trim, ok,
  err, gives, throws,
}

pub data JobPriority : Type 0 where
  critical normal low : JobPriority

pub data JobStatus : Type 0 where
  pending processing completed failed : JobStatus

pub record Job : Type 0 where
  pub id : String
  pub type : String
  pub payload : String
  pub priority : JobPriority
  pub status : JobStatus
  pub attempts : ℕ
  pub max_attempts : ℕ
  pub created_at : ℕ
  pub updated_at : ℕ
  pub last_error : Option String

pub record JobConfig : Type 0 where
  pub max_attempts : ℕ
  pub backoff_base_ms : ℕ
  pub backoff_max_ms : ℕ

-- A retry that waits for its delay.
pub record Retry : Type 0 where
  pub job_id : String
  pub priority : JobPriority
  pub delay : ℕ

pub record JobQueue : Type 0 where
  pub records : List Job
  pub queues : JobPriority → List String
  pub dlq : List String
  pub stats : JobStatus → ℕ
  pub retries : List Retry

abbrev pub same_priority : JobPriority → JobPriority → Bool
same_priority critical critical = true
same_priority normal normal = true
same_priority low low = true
same_priority _ _ = false

abbrev pub status_code : JobStatus → ℕ
status_code pending = 0
status_code processing = 1
status_code completed = 2
status_code failed = 3

abbrev pub same_status : JobStatus → JobStatus → Bool
same_status a b = status_code a == status_code b

abbrev pub is_job : String → Job → Bool
is_job id job = str_eq id job.id

unfoldable pub backoff_delay : JobConfig → ℕ → ℕ
backoff_delay c attempt = min (c.backoff_base_ms * 2 ^ (attempt - 1)) c.backoff_max_ms

unfoldable pub save_record : Job → JobQueue → JobQueue
save_record job q = record q { records = save_row (is_job job.id) job q.records }

-- `hincrby` by one, down for `from` and up for `to`. A counter is above 0 where a job has the status.
unfoldable pub count_move : JobStatus → JobStatus → (JobStatus → ℕ) → JobStatus → ℕ
count_move from to stats s =
    let less = if same_status s from then stats s - 1 else stats s in
    if same_status s to then less + 1 else less

unfoldable pub set_status : JobStatus → ℕ → Job → JobQueue → Job × JobQueue
unfolding count_move
set_status status now job q = (
  record job { status = status; updated_at = now },
  if same_status job.status status
      then q
      else record q { stats = count_move job.status status q.stats },
)

-- `lpush` to the queue of a priority: behind all that is read before.
unfoldable pub push_id : JobPriority → String → JobQueue → JobQueue
push_id p id q = record q {
  queues = λ k. if same_priority k p then q.queues k ++ id ∷ [] else q.queues k;
}

unfoldable pub new_job :
    JobConfig → String → String → String → Option JobPriority → Option ℕ → ℕ → Job
new_job c id type payload priority max_attempts now = record {
  id = id;
  type = type;
  payload = payload;
  priority = or_else priority normal;
  status = pending;
  attempts = 0;
  max_attempts = or_else max_attempts c.max_attempts;
  created_at = now;
  updated_at = now;
  last_error = none;
}

unfoldable pub enqueue : Job → JobQueue → JobQueue
unfolding save_record push_id
enqueue job q =
    let q' = save_record job q in
    push_id job.priority job.id
      (record q' { stats = λ s. if same_status s pending then q'.stats s + 1 else q'.stats s })

unfoldable pub get_job : String → JobQueue → Option Job
get_job id q = find_row (is_job id) q.records

unfoldable pub pop_queue : JobPriority → JobQueue → Option (String × JobQueue)
pop_queue p q = elim (q.queues p) [
  | [] ↦ none
  | id ∷ ids ↦ some (id, record q { queues = λ k. if same_priority k p then ids else q.queues k })
]

-- What Redis is taken to do in `brpop` over the three keys, in their order; `none` on its timeout.
unfoldable pub pop_next : JobQueue → Option (String × JobQueue)
unfolding pop_queue
pop_next q = elim (pop_queue critical q) [
  | some r ↦ some r
  | none ↦ elim (pop_queue normal q) [ some r ↦ some r | none ↦ pop_queue low q ]
]

unfoldable pub reserve_job : ℕ → Job → JobQueue → Job × JobQueue
unfolding set_status save_record
reserve_job now job q =
    let (job', q') = set_status processing now (record job { attempts = job.attempts + 1 }) q in
    (job', save_record job' q')

unfoldable pub reserve_id : ℕ → String → JobQueue → Option Job × JobQueue
unfolding get_job reserve_job
reserve_id now id q = elim (get_job id q) [
  | none ↦ (none, q)
  | some job ↦ let (job', q') = reserve_job now job q in (some job', q')
]

unfoldable pub reserve : ℕ → JobQueue → Option Job × JobQueue
unfolding pop_next reserve_id
reserve now q = elim (pop_next q) [ none ↦ (none, q) | some (id, q') ↦ reserve_id now id q' ]

unfoldable pub complete : ℕ → Job → JobQueue → JobQueue
unfolding set_status save_record
complete now job q = let (job', q') = set_status completed now job q in save_record job' q'

-- Only `complete` gives a record a time to live, after which Redis drops it; the counters stay.
unfoldable pub expire : String → JobQueue → JobQueue
unfolding get_job
expire id q = elim (get_job id q) [
  | none ↦ q
  | some job ↦
      if same_status job.status completed
      then record q { records = delete_rows (is_job id) q.records }
      else q
]

unfoldable pub move_to_dlq : ℕ → Job → JobQueue → JobQueue
unfolding set_status save_record
move_to_dlq now job q =
    let (job', q') = set_status failed now job q in
    let q'' = save_record job' q' in record q'' { dlq = job'.id ∷ q''.dlq }

unfoldable pub retry_later : JobConfig → ℕ → Job → JobQueue → JobQueue
unfolding set_status save_record backoff_delay
retry_later c now job q =
    let (job', q') = set_status pending now job q in
    let q'' = save_record job' q' in
    record q'' {
      retries =
          q''.retries
          ++ record {
            job_id = job'.id;
            priority = job'.priority;
            delay = backoff_delay c job.attempts;
          }
            ∷ [];
    }

-- Whether the job will be retried, and the queue.
unfoldable pub fail : JobConfig → ℕ → String → Job → JobQueue → Bool × JobQueue
unfolding retry_later move_to_dlq
fail c now error job q =
    let job' = record job { last_error = some error } in
    if ltb job.attempts job.max_attempts
    then (true, retry_later c now job' q)
    else (false, move_to_dlq now job' q)

unfoldable pub remove_at : ℕ → List Retry → Option (Retry × List Retry)
remove_at n [] = none
remove_at zero (r ∷ rs) = some (r, rs)
remove_at (suc n) (r ∷ rs) = elim (remove_at n rs) [ none ↦ none | some (x, ys) ↦ some (x, r ∷ ys) ]

-- One of the timers fires; they are numbered as they were started.
unfoldable pub requeue : ℕ → JobQueue → JobQueue
unfolding push_id remove_at
requeue n q = elim (remove_at n q.retries) [
  | none ↦ q
  | some (r, rs) ↦ push_id r.priority r.job_id (record q { retries = rs })
]

-- The handlers by job type: what a handler throws, or `none` where it succeeds.
abbrev pub Handlers : Type 0
Handlers = String → Option (Job → Option String)

-- What the loop of the worker does with a job that it has reserved.
unfoldable pub settle_job : JobConfig → Handlers → ℕ → Job → JobQueue → JobQueue
unfolding fail complete
settle_job c handlers now job q = elim (handlers job.type) [
  | none ↦ (fail c now ("No handler registered for job type \"" +s job.type +s "\"") job q).1
  | some handler ↦ elim (handler job) [
    | none ↦ complete now job q
    | some error ↦ (fail c now error job q).1
  ]
]

unfoldable pub total_queued : JobQueue → ℕ
total_queued q = length (q.queues critical) + length (q.queues normal) + length (q.queues low)

unfoldable pub get_dead_letter_jobs : ℕ → JobQueue → List Job
unfolding get_job
get_dead_letter_jobs limit q = found (take limit q.dlq)
  where
    found : List String → List Job
    found [] = []
    found (id ∷ ids) =
        let rest = found ids in elim (get_job id q) [ none ↦ rest | some job ↦ job ∷ rest ]
