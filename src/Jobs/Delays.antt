-- ===== src/Jobs/Delays.antt =====
-- The delays of JobQueueService.ts.
use audio_block_backend.Base.{ℕ, zero, suc, ◌+◌, ◌-◌, ◌*◌, ◌^◌, ◌≤◌, min, ◌≡◌, ap, ◌∙◌, arith}
use native.Mathlib.Omega.{pow_step}
use native.Mathlib.Nat.{mul_left_comm}
use audio_block_backend.Jobs.{JobConfig, backoff_delay}

doubles : (b t m : ℕ) → (min (b * (2 * t)) m ≡ min (2 * min (b * t) m) m) × (min (b * t) m ≤ m)
doubles b t m = (omega (arith, mul_left_comm b 2 t), omega arith)

-- From the first attempt on, a retry waits twice as long as the one before, up to the ceiling, and
-- never longer than that.
pub backoff_delay_doubles :
    (c : JobConfig) (attempt : ℕ)
    → 1 ≤ attempt
    → (backoff_delay c (attempt + 1) ≡ min (2 * backoff_delay c attempt) c.backoff_max_ms)
      × (backoff_delay c attempt ≤ c.backoff_max_ms)
unfolding backoff_delay
backoff_delay_doubles c zero h = absurd (omega arith)
backoff_delay_doubles c (suc n) h =
    let more : 2 ^ (suc n + 1 - 1) ≡ 2 * 2 ^ n = ap (λ k. 2 ^ k) (omega arith) ∙ pow_step 2 n in
    let once : 2 ^ (suc n - 1) ≡ 2 ^ n = ap (λ k. 2 ^ k) (omega arith) in
    rw (more, once) (doubles c.backoff_base_ms (2 ^ n) c.backoff_max_ms)
