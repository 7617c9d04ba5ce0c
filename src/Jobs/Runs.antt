-- ===== src/Jobs/Runs.antt =====
-- The invariant of JobQueueService.ts over all runs of the queue and its worker.
use audio_block_backend.Base.{ℕ, ◌+◌, ◌≡◌, Option, none, some, [], String}
use audio_block_backend.Jobs.{
  Job, JobPriority, JobConfig, JobQueue, new_job, enqueue, get_job, reserve, requeue, Handlers,
  settle_job, completed, expire,
}
use audio_block_backend.Jobs.Sound.{IsIn, Sound}

abbrev pub empty_queue : JobQueue
empty_queue = record { records = []; queues = λ _. []; dlq = []; stats = λ _. 0; retries = [] }

-- A step of the queue and its worker.
pub data Step : Option Job → JobQueue → Option Job → JobQueue → Type 0 where
  enqueues :
      (held : Option Job) (q : JobQueue) (c : JobConfig) (id type payload : String)
      (priority : Option JobPriority) (max_attempts : Option ℕ) (now : ℕ)
      → get_job id q ≡ none
      → Step held q held (enqueue (new_job c id type payload priority max_attempts now) q)
  reserves :
      (now : ℕ) (q q' : JobQueue) (held : Option Job)
      → reserve now q ≡ (held, q')
      → Step none q held q'
  settles :
      (c : JobConfig) (handlers : Handlers) (now : ℕ) (job : Job) (q : JobQueue)
      → Step (some job) q none (settle_job c handlers now job q)
  fires : (held : Option Job) (n : ℕ) (q : JobQueue) → Step held q held (requeue n q)
  expires :
      (held : Option Job) (id : String) (job : Job) (q : JobQueue)
      → get_job id q ≡ some job
      → IsIn completed job
      → Step held q held (expire id q)

abbrev pub expiries : {h h' : Option Job} {q q' : JobQueue} → Step h q h' q' → ℕ
expiries (enqueues held q c id type payload priority max_attempts now free) = 0
expiries (reserves now q q' held e) = 0
expiries (settles c handlers now job q) = 0
expiries (fires held n q) = 0
expiries (expires held id job q e c) = 1

pub data Reach : Option Job → JobQueue → Type 0 where
  begin : Reach none empty_queue
  next : {h h' : Option Job} {q q' : JobQueue} → Reach h q → Step h q h' q' → Reach h' q'

-- How many records have expired in a run.
abbrev pub all_expiries : {h : Option Job} {q : JobQueue} → Reach h q → ℕ
all_expiries begin = 0
all_expiries (next r s) = all_expiries r + expiries s
