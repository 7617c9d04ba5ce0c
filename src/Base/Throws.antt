-- ===== src/Base/Throws.antt =====
-- Calls that throw: the value, or the error that the caller sees.
use mathlib.Core.Path.{◌≡◌, refl, subst}
use native.Mathlib.Omega.{arith}
use mathlib.Core.Bool.{Bool, true, false}

pub data Outcome (E : Type 0) (A : Type 0) : Type 0 where
  ok : A → Outcome E A
  err : E → Outcome E A

-- A property of what a call gives, where it does not throw.
pub data Ensures {E A : Type 0} (P : A → Type 0) : Outcome E A → Type 0 where
  gives : {a : A} → P a → Ensures P (ok a)
  throws : {e : E} → Ensures P (err e)

module _ {Thrown : Type 0} where
  -- `if (test) throw error`
  abbrev pub refuse : Bool → Thrown → Outcome Thrown (Unit {0})
  refuse false _ = ok tt
  refuse true error = err error

  -- A throw skips what follows it.
  infixl 5 ◌>>=◌
  abbrev pub ◌>>=◌ :
      {First Second : Type 0}
      → Outcome Thrown First
      → (First → Outcome Thrown Second)
      → Outcome Thrown Second
  err error >>= _ = err error
  ok value >>= next = next value

  -- A successful call has had a first value, and its second part was successful on it.
  pub >>=-ok_inv :
      {First Second : Type 0} {next : First → Outcome Thrown Second} {last : Second}
      (start : Outcome Thrown First)
      → (start >>= next) ≡ ok last
      → (value : First) × (start ≡ ok value) × (next value ≡ ok last)
  >>=-ok_inv (err _) done = cc
  >>=-ok_inv (ok value) done = (value, refl, done)

  infixl 5 ◌>>◌
  abbrev pub ◌>>◌ :
      {Second : Type 0} → Outcome Thrown (Unit {0}) → Outcome Thrown Second → Outcome Thrown Second
  test >> next = test >>= λ _. next

module _ {E : Type 0} where
  pub >>=-Ensures :
      {A B : Type 0} {P : B → Type 0} (m : Outcome E A) {f : A → Outcome E B}
      → ((a : A) → m ≡ ok a → Ensures P (f a))
      → Ensures P (m >>= f)
  >>=-Ensures (ok a) h = h a refl
  >>=-Ensures (err e) h = throws

  pub refuse-Ensures :
      {B : Type 0} {P : B → Type 0} (t : Bool) (e : E) {k : Outcome E B}
      → (t ≡ false → Ensures P k)
      → Ensures P (refuse t e >> k)
  refuse-Ensures true e h = throws
  refuse-Ensures false e h = h refl

  pub Ensures-ok :
      {A : Type 0} {P : A → Type 0} {o : Outcome E A} → Ensures P o → {a : A} → o ≡ ok a → P a
  Ensures-ok {P} (gives h) e = subst P (ground arith) h
  Ensures-ok throws e = cc

  pub Ensures-weaken :
      {A : Type 0} {P Q : A → Type 0} {o : Outcome E A}
      → ((a : A) → P a → Q a)
      → Ensures P o
      → Ensures Q o
  Ensures-weaken weaken (gives h) = gives (weaken _ h)
  Ensures-weaken weaken throws = throws
