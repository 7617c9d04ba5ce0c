-- ===== src/Circuit/Sequential.antt =====
-- circuitBreaker.ts where nothing else happens while a call or a health check is awaited.
use audio_block_backend.Base.{
  ℕ, ◌+◌, ◌≤◌, ◌<◌, ◌≡◌, refl, ap, ◌⊎◌, inl, inr, Bool, true, false, Option, List, [], ◌∷◌, arith,
  List-cases, or_else, length,
}
use audio_block_backend.Circuit.{
  CircuitBreaker, closed, open_state, half_open, make, is_open, record_failure, execute, fire,
  health_check, start_health_checks, stop_health_checks,
}

-- Closed, the failures are below the threshold and no timer runs; open, exactly one timer runs; half
-- open, none does, and the next failure opens again.
abbrev pub Mode : CircuitBreaker → Type 0
Mode b =
    ((b.state ≡ closed) × (b.failure_count < b.failure_threshold) × (b.due ≡ []))
    ⊎ ((b.state ≡ open_state) × (b.failure_threshold ≤ b.failure_count) × (length b.due ≡ 1))
    ⊎ ((b.state ≡ half_open) × (b.failure_threshold ≤ b.failure_count) × (b.due ≡ []))

pub record Consistent (b : CircuitBreaker) : Type 0 where
  pub positive : 0 < b.failure_threshold
  pub mode : Mode b

pub data Step : CircuitBreaker → CircuitBreaker → Type 0 where
  executes : (succeeds : Bool) (now : ℕ) (b : CircuitBreaker) → Step b (execute succeeds now b)
  fires : (b : CircuitBreaker) → Step b (fire b)
  checks : (healthy : Bool) (now : ℕ) (b : CircuitBreaker) → Step b (health_check healthy now b)
  starts : (b : CircuitBreaker) → Step b (start_health_checks b)
  stops : (b : CircuitBreaker) → Step b (stop_health_checks b)

pub data Reach (b : CircuitBreaker) : CircuitBreaker → Type 0 where
  here : Reach b b
  next : {c d : CircuitBreaker} → Reach b c → Step c d → Reach b d

length-zero : (l : List ℕ) → length l ≡ 0 → l ≡ []
length-zero [] e = refl
length-zero (x ∷ l) e = absurd (omega arith)

record_failure-Consistent :
    (now : ℕ) (b : CircuitBreaker)
    → Consistent b
    → is_open b ≡ false
    → Consistent (record_failure now b)
unfolding record_failure is_open
record_failure-Consistent now b c h = ground arith

execute-Consistent :
    (succeeds : Bool) (now : ℕ) (b : CircuitBreaker)
    → Consistent b
    → Consistent (execute succeeds now b)
unfolding execute is_open
execute-Consistent true now b c = ground arith
execute-Consistent false now b c = ground (arith, record_failure-Consistent now b c)

fire-Consistent : (b : CircuitBreaker) → Consistent b → Consistent (fire b)
unfolding fire
fire-Consistent b c = elim (List-cases b.due) [
  | inl e ↦ rw (e, fire) c
  | inr (t, rest, e) ↦ ground (arith, ap length e, length-zero rest)
]

health_check-Consistent :
    (healthy : Bool) (now : ℕ) (b : CircuitBreaker)
    → Consistent b
    → Consistent (health_check healthy now b)
unfolding health_check is_open
health_check-Consistent true now b c = ground arith
health_check-Consistent false now b c = ground (arith, record_failure-Consistent now b c)

Step-Consistent : {b c : CircuitBreaker} → Step b c → Consistent b → Consistent c
Step-Consistent (executes succeeds now b) c = execute-Consistent succeeds now b c
Step-Consistent (fires b) c = fire-Consistent b c
Step-Consistent (checks healthy now b) c = health_check-Consistent healthy now b c
Step-Consistent (starts b) c =
    unfold start_health_checks in record { positive = c.positive; mode = c.mode }
Step-Consistent (stops b) c =
    unfold stop_health_checks in record { positive = c.positive; mode = c.mode }

Reach-Consistent : {b c : CircuitBreaker} → Reach b c → Consistent b → Consistent c
Reach-Consistent here c = c
Reach-Consistent (next r s) c = Step-Consistent s (Reach-Consistent r c)

make-Consistent :
    (threshold timeout interval : Option ℕ)
    → 0 < or_else threshold 3
    → Consistent (make threshold timeout interval)
unfolding make
make-Consistent threshold timeout interval h = record { positive = h; mode = inl (refl, h, refl) }

-- If the threshold is positive, and no timer fires and no other call or health check begins while a
-- call or a health check is awaited, then in whatever order they follow each other: the breaker is
-- closed with fewer failures than the threshold and no timer, or open with exactly one timer
-- running, so that it will be tested, or half open with the threshold reached and no timer.
pub Reach-Mode :
    (threshold timeout interval : Option ℕ) {b : CircuitBreaker}
    → 0 < or_else threshold 3
    → Reach (make threshold timeout interval) b
    → Mode b
Reach-Mode threshold timeout interval h r =
    (Reach-Consistent r (make-Consistent threshold timeout interval h)).mode

-- From an open breaker in a consistent state nothing passes until its timer fires; then one call
-- decides: a success closes it with no failures counted, and a failure opens it again with a new
-- timer.
pub probe_decides :
    (succeeds : Bool) (early now : ℕ) (b : CircuitBreaker)
    → Consistent b
    → is_open b ≡ true
    → (execute succeeds early b ≡ b)
      × ((execute true now (fire b)).state ≡ closed)
      × ((execute true now (fire b)).failure_count ≡ 0)
      × ((execute false now (fire b)).state ≡ open_state)
      × ((execute false now (fire b)).due ≡ (now + b.reset_timeout_ms) ∷ [])
unfolding execute fire is_open
probe_decides succeeds early now b c h = elim (List-cases b.due) [
  | inl e ↦ absurd (ground (arith, ap length e))
  | inr (t, rest, e) ↦ (
    ground arith,
    ground (arith, ap length e, length-zero rest),
    ground (arith, ap length e, length-zero rest),
    ground (arith, ap length e, length-zero rest),
    ground (arith, ap length e, length-zero rest),
  )
]
