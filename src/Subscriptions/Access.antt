-- ===== src/Subscriptions/Access.antt =====
-- src/services/SubscriptionService.ts: which tier a user has.
use audio_block_backend.Subscriptions.{
  SubscriptionTier, give, free, artist_pro, label, Subscription, Store, Error, Env, resume,
  newest_active, is_over, current, get_user_subscription, finalize_trial_transition, billed, save,
  rank, is_free, has_tier_access,
}
use audio_block_backend.Base.{
  ℕ, ◌≡◌, refl, ap, ◌∙◌, inl, inr, false, Option, none, some, String, ltb, leb, if◌then◌else◌,
  Bool-cases, Option-cases, Outcome, str_eq, ok, err,
}

abbrev pub tier_in : ℕ → Option Subscription → SubscriptionTier
tier_in now none = free
tier_in now (some s) = if is_over now s then free else s.tier

-- What the tables say of a user: the tier of the newest active row that is not over, or else none.
unfoldable pub tier_at : ℕ → String → Store → SubscriptionTier
tier_at now user st = tier_in now (newest_active user st)

is_free-rank : (t : SubscriptionTier) → is_free t ≡ leb (rank t) (rank free)
is_free-rank free = refl
is_free-rank artist_pro = refl
is_free-rank label = refl

pub resume-give :
    {A B : Type 0} (k : A → B) (r : Outcome Error A × Store) {a : A}
    → r.0 ≡ ok a
    → (resume (λ a. give (k a)) r).0 ≡ ok (k a)
resume-give k (ok b, st) e = cc
resume-give k (err f, st) e = cc

pub get_user_subscription-none :
    (env : Env) (user : String) (st : Store)
    → str_eq user "" ≡ false
    → newest_active user st ≡ none
    → get_user_subscription env user st ≡ (ok none, st)
unfolding get_user_subscription
get_user_subscription-none env user st h e = rw h (rw (resume, e) refl)

pub get_user_subscription-some :
    (env : Env) (user : String) (st : Store) {s : Subscription}
    → str_eq user "" ≡ false
    → newest_active user st ≡ some s
    → get_user_subscription env user st ≡ current env s st
unfolding get_user_subscription
get_user_subscription-some env user st h e = rw h (rw (resume, e) refl)

-- Whatever is saved on the way, a row that is not over keeps its tier.
current-tier :
    (env : Env) (s : Subscription) (st : Store)
    → ((o : Option Subscription) × ((current env s st).0 ≡ ok o)
        × ((t : SubscriptionTier)
            → (elim o [ none ↦ is_free t | some s ↦ leb (rank t) (rank s.tier) ])
              ≡ leb (rank t) (rank (if is_over env.now s then free else s.tier))))
unfolding current finalize_trial_transition billed save
current-tier env s st = elim (Bool-cases (is_over env.now s)) [
  | inl e ↦ rw e (none, refl, is_free-rank)
  | inr e ↦ elim (Option-cases s.trial_ends_at) [
    | inl f ↦ rw (e, f) (some s, refl, λ t. refl)
    | inr (t, f) ↦ elim (Bool-cases (ltb env.now t)) [
      | inl g ↦ rw (e, f, g) (some s, refl, λ t. refl)
      | inr g ↦ rw (e, f, g, f) (some (billed t s), refl, λ t. refl)
    ]
  ]
]

-- In terms of `tier_at`.
pub has_tier_access-tier_at :
    (env : Env) (user : String) (t : SubscriptionTier) (st : Store)
    → str_eq user "" ≡ false
    → (has_tier_access env user t st).0 ≡ ok (leb (rank t) (rank (tier_at env.now user st)))
unfolding has_tier_access get_user_subscription tier_at
has_tier_access-tier_at env user t st h = elim (Option-cases (newest_active user st)) [
  | inl e ↦
      let here = ap (tier_in env.now) e in
      rw (get_user_subscription-none env user st h e, here) (ap ok (is_free-rank t))
  | inr (s, e) ↦
      let (o, f, g) = current-tier env s st in
      let here = ap (tier_in env.now) e in
      rw (get_user_subscription-some env user st h e, here)
        (resume-give _ (current env s st) f ∙ ap ok (g t))
]
