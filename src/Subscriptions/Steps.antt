-- ===== src/Subscriptions/Steps.antt =====
-- Calls of src/services/SubscriptionService.ts that go on with what another gives.
use audio_block_backend.Subscriptions.{Error, Store, Call, resume, ◌>>◌, throw_if}
use audio_block_backend.Base.{◌≡◌, refl, Bool, true, false, Outcome, Ensures, ok, err, throws}

pub resume-Ensures :
    {A B : Type 0} (r : Outcome Error A × Store) (next : A → Call B) (P : B → Store → Type 0)
    → ((a : A) (st : Store) → r ≡ (ok a, st) → Ensures (λ b. P b (next a st).1) (next a st).0)
    → Ensures (λ b. P b (resume next r).1) (resume next r).0
resume-Ensures (err e, st) next P k = throws
resume-Ensures (ok a, st) next P k = k a st refl

pub throw_if-Ensures :
    {B : Type 0} (test : Bool) (e : Error) (call : Call B) (P : B → Store → Type 0) (st : Store)
    → (test ≡ false → Ensures (λ b. P b (call st).1) (call st).0)
    → Ensures (λ b. P b ((throw_if test e >> call) st).1) ((throw_if test e >> call) st).0
throw_if-Ensures true e call P st k = throws
throw_if-Ensures false e call P st k = k refl
