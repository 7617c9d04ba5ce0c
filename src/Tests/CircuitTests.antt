-- ===== src/Tests/CircuitTests.antt =====
-- utils/circuitBreaker.ts with its default configuration.
use audio_block_backend.Base.{
  ℕ, ◌+◌, ◌≡◌, refl, inl, inr, Bool, true, false, none, some, List, [], ◌∷◌, arith,
}
use audio_block_backend.Circuit.{
  CircuitBreaker, closed, open_state, half_open, make, is_open, execute, settle, fire,
}
use audio_block_backend.Circuit.Sequential.{
  Consistent, Mode, executes, here, next, Reach-Mode, probe_decides,
}
use audio_block_backend.Circuit.Overlap.{run, failures, failures_add_up, stale_timer}

abbrev fresh : CircuitBreaker
fresh = record {
  state = closed;
  failure_count = 0;
  last_failure = none;
  opened_at = none;
  due = [];
  health_checks = false;
  config = record {
    failure_threshold = 3;
    reset_timeout_ms = 30000;
    health_check_interval_ms = 30000;
  };
}

abbrev opened : CircuitBreaker
opened = record fresh {
  state = open_state;
  failure_count = 3;
  last_failure = some 10;
  opened_at = some 10;
  due = 30010 ∷ [];
}

fresh_test : make none none none ≡ fresh
unfolding make
fresh_test = refl

opens_test : execute false 10 (execute false 9 (execute false 8 fresh)) ≡ opened
unfolding execute
opens_test = refl

Reach-Mode_example : Mode (execute false 8 (make none none none))
Reach-Mode_example =
    Reach-Mode none none none (omega arith) (next here (executes false 8 (make none none none)))

opened-Consistent : Consistent opened
opened-Consistent = record { positive = omega arith; mode = inr (inl (refl, omega arith, refl)) }

probe_decides_test :
    (execute true 20 opened ≡ opened)
    × ((execute true 40000 (fire opened)).state ≡ closed)
    × ((execute true 40000 (fire opened)).failure_count ≡ 0)
    × ((execute false 40000 (fire opened)).state ≡ open_state)
    × ((execute false 40000 (fire opened)).due ≡ (40000 + 30000) ∷ [])
unfolding is_open
probe_decides_test = probe_decides true 20 40000 opened opened-Consistent refl

abbrev mixed : List (Bool × ℕ)
mixed = (false, 1) ∷ (true, 2) ∷ (false, 3) ∷ (true, 4) ∷ []

failures_add_up_test :
    ((run mixed fresh).state ≡ closed)
    × ((run mixed fresh).failure_count ≡ fresh.failure_count + failures mixed)
    × ((execute false 5 (run mixed fresh)).state ≡ open_state)
unfolding failures
failures_add_up_test = failures_add_up mixed 5 fresh refl (omega arith)

abbrev nearly : CircuitBreaker
nearly = record fresh { failure_count = 2; last_failure = some 5 }

stale_timer_test :
    let tested = fire (settle false 7 (settle false 6 nearly)) in
    let recovered = execute true 40000 tested in
    (recovered.state ≡ closed)
    × (recovered.failure_count ≡ 0)
    × ((fire recovered).state ≡ half_open)
    × ((fire recovered).failure_count ≡ 0)
stale_timer_test = stale_timer 6 7 40000 nearly refl refl (omega arith)
