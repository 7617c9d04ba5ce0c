-- ===== src/Subscriptions/Cancel.antt =====
-- src/services/SubscriptionService.ts: a cancelled subscription.
use audio_block_backend.Subscriptions.Rows.{count_rows-newest_first, find_row-count_zero}
use audio_block_backend.Subscriptions.Access.{tier_in, tier_at, has_tier_access-tier_at}
use audio_block_backend.Subscriptions.Sound.{Sound, Current, nothing, held, save-ends}
use audio_block_backend.Subscriptions.Steps.{resume-Ensures, throw_if-Ensures}
use audio_block_backend.Subscriptions.Runs.{get_user_subscription-Current}
use audio_block_backend.Subscriptions.{
  Subscription, SubscriptionTier, free, cancelled, Store, Env, Call, is_active_of, newest_active,
  save, no_active_subscription, get_user_subscription, cancel_subscription, has_tier_access, rank,
}
use audio_block_backend.Base.{
  ℕ, ◌≡◌, refl, ap, ◌∙◌, subst, false, Option, none, some, String, leb, Ensures, Ensures-ok,
  count_rows, str_eq, ok, err, gives, throws,
}

-- No row of the user is active.
pub record Ended (user : String) (st : Store) : Type 0 where
  pub named : str_eq user "" ≡ false
  pub none_active : count_rows (is_active_of user) st ≡ 0

Ended-tier_at : (user : String) (st : Store) (now : ℕ) → Ended user st → tier_at now user st ≡ free
unfolding tier_at newest_active
Ended-tier_at user st now v =
    let zero_fit = count_rows-newest_first (is_active_of user) st ∙ v.none_active in
    ap (tier_in now) (find_row-count_zero (is_active_of user) _ zero_fit)

unfoldable cancelling : Env → Option Subscription → Call Subscription
unfolding save
cancelling env = elim [
  | none ↦ λ st. (err no_active_subscription, st)
  | some s ↦ save env (record s { status = cancelled })
]

cancelling-Ended :
    (env : Env) (user : String) (o : Option Subscription) (st : Store)
    → str_eq user "" ≡ false
    → Sound st
    → Current user st o
    → Ensures (λ (s : Subscription). Ended user (cancelling env o st).1) (cancelling env o st).0
unfolding cancelling save
cancelling-Ended env user _ st h v (nothing z) = throws
cancelling-Ended env user _ st h v (held {s} {x} f a b) = gives (record {
  named = h;
  none_active = save-ends env user (record s { status = cancelled }) x st v f b refl;
})

cancel_subscription-Ended :
    (env : Env) (user : String) (st : Store)
    → Sound st
    → Ensures
        (λ (s : Subscription). Ended user (cancel_subscription env user st).1)
        (cancel_subscription env user st).0
unfolding cancel_subscription cancelling
cancel_subscription-Ended env user st v =
    throw_if-Ensures (str_eq user "") _ _ (λ s st'. Ended user st') st
      (λ h.
        resume-Ensures (get_user_subscription env user st) _ (λ s st'. Ended user st')
          (λ o st' e.
            let (v', c) =
              subst (λ r. Sound r.1 × Ensures (Current user r.1) r.0) e
                (get_user_subscription-Current env user st v) in
            cancelling-Ended env user o st' h v' (Ensures-ok c refl)))

-- Once a cancellation has succeeded, the user has access to the free tier only, at any time: the
-- paid period that is left is lost.
pub cancel_subscription-free :
    (env : Env) (user : String) (st : Store) {s : Subscription}
    → Sound st
    → (cancel_subscription env user st).0 ≡ ok s
    → (later : Env) (t : SubscriptionTier)
    → (has_tier_access later user t (cancel_subscription env user st).1).0
      ≡ ok (leb (rank t) (rank free))
cancel_subscription-free env user st v e later t =
    let ended = Ensures-ok (cancel_subscription-Ended env user st v) e in
    let st' = (cancel_subscription env user st).1 in
    has_tier_access-tier_at later user t st' ended.named
    ∙ ap (λ k. ok (leb (rank t) (rank k))) (Ended-tier_at user st' later.now ended)
