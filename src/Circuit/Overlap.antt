-- ===== src/Circuit/Overlap.antt =====
-- circuitBreaker.ts: successes between failures, and calls that overlap.
use audio_block_backend.Base.{
  ℕ, ◌+◌, ◌≤◌, ◌<◌, ◌≡◌, ap, ◌∙◌, Bool, true, false, some, List, [], ◌∷◌, arith, if◌then◌else◌,
}
use audio_block_backend.Circuit.{
  CircuitBreaker, closed, open_state, half_open, is_open, settle, execute, fire,
}

-- One call after another, each with its outcome and its time.
pub run : List (Bool × ℕ) → CircuitBreaker → CircuitBreaker
run [] b = b
run ((succeeds, now) ∷ calls) b = run calls (execute succeeds now b)

unfoldable pub failures : List (Bool × ℕ) → ℕ
failures [] = 0
failures ((succeeds, now) ∷ calls) = (if succeeds then 0 else 1) + failures calls

one_failure : ℕ → CircuitBreaker → CircuitBreaker
one_failure now b = record b { failure_count = b.failure_count + 1; last_failure = some now }

execute_failure :
    (now : ℕ) (b : CircuitBreaker)
    → b.state ≡ closed
    → b.failure_count + 1 < b.failure_threshold
    → execute false now b ≡ one_failure now b
unfolding execute is_open one_failure
execute_failure now b e h = ground arith

-- In the closed state a success changes nothing, so that failures add up however many successes
-- stand between them, and the breaker opens with the failure that reaches the threshold.
pub failures_add_up :
    (calls : List (Bool × ℕ)) (now : ℕ) (b : CircuitBreaker)
    → b.state ≡ closed
    → b.failure_count + failures calls + 1 ≡ b.failure_threshold
    → ((run calls b).state ≡ closed)
      × ((run calls b).failure_count ≡ b.failure_count + failures calls)
      × ((execute false now (run calls b)).state ≡ open_state)
unfolding run failures execute is_open one_failure
failures_add_up [] now b e h = ground arith
failures_add_up ((true, t) ∷ calls) now b e h = ground (arith, failures_add_up calls now b)
failures_add_up ((false, t) ∷ calls) now b e h =
    let (state, count, opens) =
      failures_add_up calls now (one_failure t b) e (unfold one_failure in omega (arith, h)) in
    let same : run ((false, t) ∷ calls) b ≡ run calls (one_failure t b) =
      ap (run calls) (execute_failure t b e (omega (arith, h))) in
    (
      ap (λ (x : CircuitBreaker). x.state) same ∙ state,
      ap (λ (x : CircuitBreaker). x.failure_count) same
          ∙ unfold one_failure in omega (arith, count),
      ap (λ (x : CircuitBreaker). (execute false now x).state) same ∙ opens,
    )

-- Two calls are let in while one more failure opens a closed breaker, and both fail: two timers run.
-- The first ends the open period; a success closes the breaker; then the second makes the healthy
-- breaker half open, with no failure counted.
pub stale_timer :
    (n1 n2 now : ℕ) (b : CircuitBreaker)
    → b.state ≡ closed
    → b.due ≡ []
    → b.failure_threshold ≤ b.failure_count + 1
    → let tested = fire (settle false n2 (settle false n1 b)) in
      let recovered = execute true now tested in
      (recovered.state ≡ closed)
      × (recovered.failure_count ≡ 0)
      × ((fire recovered).state ≡ half_open)
      × ((fire recovered).failure_count ≡ 0)
unfolding settle fire execute is_open
stale_timer n1 n2 now b e f h = ground arith
