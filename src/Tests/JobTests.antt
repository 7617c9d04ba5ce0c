-- ===== src/Tests/JobTests.antt =====
-- services/JobQueueService.ts: two jobs, of which the critical one fails and waits for its retry.
use audio_block_backend.Base.{
  ◌*◌, ◌≤◌, min, ◌≡◌, refl, Option, none, some, arith, if◌then◌else◌, find_row, save_row, str_eq,
}
use audio_block_backend.Jobs.{
  Job, critical, low, processing, JobConfig, JobQueue, new_job, enqueue, get_job, pop_next,
  pop_queue, reserve, settle_job, backoff_delay, Handlers, save_record, push_id, reserve_id,
  reserve_job, completed, expire,
}
use audio_block_backend.Jobs.Sound.{Sound}
use audio_block_backend.Jobs.Runs.{
  Reach, empty_queue, enqueues, reserves, settles, expires, begin, next,
}
use audio_block_backend.Jobs.Delays.{backoff_delay_doubles}

abbrev config : JobConfig
config = record { max_attempts = 3; backoff_base_ms = 2000; backoff_max_ms = 30000 }

abbrev pin : Job
pin = new_job config "j1" "pin" "{}" (some low) none 1

abbrev mail : Job
mail = new_job config "j2" "email.send" "{}" (some critical) none 2

abbrev two_jobs : JobQueue
two_jobs = enqueue mail (enqueue pin empty_queue)

-- The handler of mails throws.
abbrev handlers : Handlers
handlers type = if str_eq type "email.send" then some (λ _. some "timeout") else none

abbrev taken : Option Job × JobQueue
taken = reserve 3 two_jobs

abbrev mail_in_work : Job
mail_in_work = record mail { status = processing; attempts = 1; updated_at = 3 }

taken_test : taken.0 ≡ some mail_in_work
unfolding enqueue new_job reserve pop_next pop_queue save_record push_id save_row find_row get_job
    reserve_id reserve_job
taken_test = refl

-- The pin is taken next, and its handler succeeds.
abbrev pins : Handlers
pins type = some (λ _. none)

abbrev pin_in_work : Job
pin_in_work = record pin { status = processing; attempts = 1; updated_at = 5 }

abbrev after_mail : JobQueue
after_mail = settle_job config handlers 4 mail_in_work taken.1

abbrev after_pin : JobQueue
after_pin = settle_job config pins 6 pin_in_work (reserve 5 after_mail).1

mail_run : Reach none after_mail
unfolding enqueue new_job reserve pop_next pop_queue save_record push_id save_row find_row get_job
    reserve_id reserve_job
mail_run =
    next
      (next
        (next (next begin (enqueues none empty_queue config "j1" "pin" "{}" (some low) none 1 refl))
          (enqueues none (enqueue pin empty_queue) config "j2" "email.send" "{}" (some critical)
            none 2 refl))
        (reserves 3 two_jobs taken.1 (some mail_in_work) refl))
      (settles config handlers 4 mail_in_work taken.1)

abbrev whole_run : Reach none (expire "j1" after_pin)
unfolding enqueue new_job reserve pop_next pop_queue save_record push_id save_row find_row get_job
    reserve_id reserve_job settle_job
whole_run =
    next
      (next (next mail_run (reserves 5 after_mail (reserve 5 after_mail).1 (some pin_in_work) refl))
        (settles config pins 6 pin_in_work (reserve 5 after_mail).1))
      (expires none "j1" (record pin_in_work { status = completed; updated_at = 6 }) after_pin refl
        refl)

backoff_delay_doubles_test :
    (backoff_delay config 3 ≡ min (2 * backoff_delay config 2) 30000)
    × (backoff_delay config 2 ≤ 30000)
backoff_delay_doubles_test = backoff_delay_doubles config 2 (omega arith)
