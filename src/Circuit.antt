-- ===== src/Circuit.antt =====
-- src/utils/circuitBreaker.ts. Times are in milliseconds. `due` are the timers that `setTimeout` has
-- started and that have not fired, by the time at which they do: `resetTimer` holds the last of them,
-- and a timer that is overwritten there still fires.
pub mod Sequential
pub mod Overlap
use audio_block_backend.Base.{
  ℕ, ◌+◌, ◌-◌, ◌*◌, Bool, true, false, not, Option, none, some, List, [], ◌∷◌, ◌++◌, leb,
  if◌then◌else◌, or_else, length, take,
}

pub data CircuitState : Type 0 where
  closed open_state half_open : CircuitState

pub record CircuitBreakerConfig : Type 0 where
  pub failure_threshold : ℕ
  pub reset_timeout_ms : ℕ
  pub health_check_interval_ms : ℕ

pub record CircuitBreaker : Type 0 where
  pub state : CircuitState
  pub failure_count : ℕ
  pub last_failure : Option ℕ
  pub opened_at : Option ℕ
  pub due : List ℕ
  pub health_checks : Bool
  pub config : CircuitBreakerConfig
  pub open config use *

-- The constructor, with the defaults of the configuration.
unfoldable pub make : Option ℕ → Option ℕ → Option ℕ → CircuitBreaker
make threshold timeout interval = record {
  state = closed;
  failure_count = 0;
  last_failure = none;
  opened_at = none;
  due = [];
  health_checks = false;
  config = record {
    failure_threshold = or_else threshold 3;
    reset_timeout_ms = or_else timeout 30000;
    health_check_interval_ms = or_else interval 30000;
  };
}

unfoldable pub is_open : CircuitBreaker → Bool
is_open b = elim b.state [ open_state ↦ true | _ ↦ false ]

abbrev pub is_half_open : CircuitBreaker → Bool
is_half_open b = elim b.state [ half_open ↦ true | _ ↦ false ]

unfoldable pub transition_to : CircuitState → CircuitBreaker → CircuitBreaker
transition_to s b = record b { state = s }

unfoldable pub record_success : CircuitBreaker → CircuitBreaker
unfolding transition_to
record_success b =
    let b' = record b { failure_count = 0; last_failure = none } in
    if is_half_open b' then transition_to closed b' else b'

unfoldable pub record_failure : ℕ → CircuitBreaker → CircuitBreaker
unfolding transition_to
record_failure now b =
    let b' = record b { failure_count = b.failure_count + 1; last_failure = some now } in
    if leb b'.failure_threshold b'.failure_count
    then record (transition_to open_state b') {
      opened_at = some now;
      due = b'.due ++ (now + b'.reset_timeout_ms) ∷ [];
    }
    else b'

-- `execute` up to its call of `fn`: whether the call is made.
unfoldable pub admits : CircuitBreaker → Bool
unfolding is_open
admits b = not (is_open b)

-- `execute` once `fn` has settled.
unfoldable pub settle : Bool → ℕ → CircuitBreaker → CircuitBreaker
unfolding record_success record_failure
settle true now b = if is_half_open b then record_success b else b
settle false now b = record_failure now b

-- `execute` of a call that nothing else overlaps; `succeeds` says how `fn` settles.
unfoldable pub execute : Bool → ℕ → CircuitBreaker → CircuitBreaker
unfolding admits settle
execute succeeds now b = if admits b then settle succeeds now b else b

-- The oldest timer that is running fires.
unfoldable pub fire : CircuitBreaker → CircuitBreaker
unfolding transition_to
fire b = elim b.due [ [] ↦ b | t ∷ rest ↦ transition_to half_open (record b { due = rest }) ]

unfoldable pub start_health_checks : CircuitBreaker → CircuitBreaker
start_health_checks b = record b { health_checks = true }

unfoldable pub stop_health_checks : CircuitBreaker → CircuitBreaker
stop_health_checks b = record b { health_checks = false }

-- One health check; a check that throws is one that is not healthy.
unfoldable pub health_check : Bool → ℕ → CircuitBreaker → CircuitBreaker
unfolding record_success record_failure is_open
health_check healthy now b =
    if b.health_checks
    then (if healthy
        then (if is_half_open b then record_success b else b)
        else (if is_open b then b else record_failure now b))
    else b

-- `destroy` stops the health checks and the timer that was started last, which fires last.
unfoldable pub destroy : CircuitBreaker → CircuitBreaker
unfolding stop_health_checks
destroy b = record (stop_health_checks b) { due = take (length b.due - 1) b.due }
