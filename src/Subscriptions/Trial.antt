-- ===== src/Subscriptions/Trial.antt =====
-- src/services/SubscriptionService.ts: a trial, from its start to the end of the billed period.
use audio_block_backend.Subscriptions.Rows.{newest_first-append}
use audio_block_backend.Subscriptions.Access.{
  tier_in, tier_at, resume-give, get_user_subscription-some, has_tier_access-tier_at,
}
use audio_block_backend.Subscriptions.{
  Subscription, SubscriptionTier, free, Store, Env, Days, milliseconds, default_billing_period_ms,
  is_id, is_active_of, newest_active, save, saved_row, billed, is_over, in_trial_at, is_in_trial,
  start_trial, finalize_trial_transition, current, get_user_subscription, has_tier_access, rank,
}
use audio_block_backend.Base.{
  ℕ, ◌+◌, ◌≤◌, ◌≡◌, refl, sym, ap, ◌∙◌, inl, inr, Bool, true, false, Option, none, some, [], ◌∷◌,
  ◌++◌, arith, String, ltb, leb, if◌then◌else◌, Bool-cases, Ensures-ok, find_row, save_row,
  save_row-append, str_eq_refl, ok,
}
use audio_block_backend.Subscriptions.Started.{Trying, start_trial-Trying}

newest_active-Trying :
    (user : String) (ends : ℕ) (s : Subscription) (st : Store)
    → Trying user ends s st
    → newest_active user st ≡ some s
unfolding newest_active find_row
newest_active-Trying user ends s st w =
    ap (newest_active user) w.holds
    ∙ ap (find_row (is_active_of user)) (newest_first-append w.older s)
    ∙ rw w.fits refl

saved_row-billed :
    (b : Bool) (o : Option Subscription) (ends : ℕ) (s : Subscription)
    → s.end_date ≡ none
    → let row = saved_row b o (billed ends s) in
      (row.end_date ≡ some (ends + default_billing_period_ms))
      × (row.tier ≡ s.tier)
      × (row.user_id ≡ s.user_id)
      × (row.status ≡ s.status)
unfolding saved_row billed
saved_row-billed false o ends s e = rw e (refl, refl, refl, refl)
saved_row-billed true none ends s e = rw e (refl, refl, refl, refl)
saved_row-billed true (some old) ends s e = rw e (refl, refl, refl, refl)

module _ (user : String) (ends : ℕ) (s : Subscription) (st : Store)
    (w : Trying user ends s st) where
  still_open : (now : ℕ) → is_over now s ≡ false
  unfolding is_over
  still_open now = rw w.unbilled refl

  current_early : (look : Env) → ltb look.now ends ≡ true → current look s st ≡ (ok (some s), st)
  unfolding current
  current_early look h = simp (current, still_open look.now, w.on_trial, h)

  current_late :
      (look : Env)
      → ltb look.now ends ≡ false
      → current look s st ≡ (ok (some (billed ends s)), (save look (billed ends s) st).1)
  unfolding current finalize_trial_transition save
  current_late look h =
      rw (current, still_open look.now, w.on_trial, h, finalize_trial_transition, w.on_trial) refl

  get_user_subscription-Trying :
      (look : Env) → get_user_subscription look user st ≡ current look s st
  get_user_subscription-Trying look =
      get_user_subscription-some look user st w.named (newest_active-Trying user ends s st w)

  Trying-is_in_trial : (later : Env) → (is_in_trial later user st).0 ≡ ok (ltb later.now ends)
  unfolding is_in_trial billed
  Trying-is_in_trial later = elim (Bool-cases (ltb later.now ends)) [
    | inl h ↦
        let e = get_user_subscription-Trying later ∙ current_early later h in
        let f : in_trial_at later.now (some s) ≡ true = rw (w.on_trial, h) refl in
        resume-give (in_trial_at later.now) _ (ap (λ r. r.0) e) ∙ ap ok (f ∙ sym h)
    | inr h ↦
        let e = get_user_subscription-Trying later ∙ current_late later h in
        resume-give (in_trial_at later.now) _ (ap (λ r. r.0) e) ∙ ap ok (sym h)
  ]

  Trying-access :
      (later : Env) (t : SubscriptionTier)
      → (has_tier_access later user t st).0 ≡ ok (leb (rank t) (rank s.tier))
  unfolding tier_at
  Trying-access later t =
      let here = ap (tier_in later.now) (newest_active-Trying user ends s st w) in
      has_tier_access-tier_at later user t st w.named ∙ rw (here, still_open later.now) refl

  -- The row that the first look after the trial saves.
  looked : Env → Subscription
  looked look = saved_row look.skips_undefined (find_row (is_id s.id) st) (billed ends s)

  save-looked : (look : Env) → (save look (billed ends s) st).1 ≡ w.older ++ looked look ∷ []
  unfolding save billed looked
  save-looked look =
      ap (save_row (is_id s.id) (looked look)) w.holds
      ∙ save_row-append (is_id s.id) w.older s (looked look) w.own_id (str_eq_refl s.id)

  newest_active-looked :
      (look : Env) → newest_active user (w.older ++ looked look ∷ []) ≡ some (looked look)
  unfolding newest_active find_row looked
  newest_active-looked look =
      let (d, t, u, a) =
        saved_row-billed look.skips_undefined (find_row (is_id s.id) st) ends s w.unbilled in
      let fits : is_active_of user (looked look) ≡ true = rw (u, a) w.fits in
      ap (find_row (is_active_of user)) (newest_first-append w.older (looked look)) ∙ rw fits refl

  Trying-billed :
      (look later : Env) (t : SubscriptionTier)
      → ends ≤ look.now
      → (has_tier_access later user t (get_user_subscription look user st).1).0
        ≡ ok (
            leb
              (rank t)
              (rank (if ltb (ends + default_billing_period_ms) later.now then free else s.tier)))
  unfolding tier_at is_over looked
  Trying-billed look later t h =
      let late : ltb look.now ends ≡ false = ground arith in
      let st' = (get_user_subscription look user st).1 in
      let there : st' ≡ w.older ++ looked look ∷ [] =
        ap (λ r. r.1) (get_user_subscription-Trying look ∙ current_late look late)
        ∙ save-looked look in
      let (d, e, u, a) =
        saved_row-billed look.skips_undefined (find_row (is_id s.id) st) ends s w.unbilled in
      let here =
        ap (tier_in later.now) (ap (newest_active user) there ∙ newest_active-looked look) in
      has_tier_access-tier_at later user t st' w.named ∙ rw (here, d, e) refl

-- After a trial has started, and as long as at most one look at the subscription comes before the
-- call in question, and nothing else: the user is in the trial until its days have passed, and
-- has access to the tier of the trial whenever the first look is made; the first look after the
-- trial bills a period of thirty days from the end of the trial on, and from then the user has
-- that tier until the period is over and the free one afterwards.
pub start_trial-Trial :
    (env : Env) (user tier : String) (days : Days) (st : Store) {s : Subscription}
    → (start_trial env user tier days st).0 ≡ ok s
    → (look later : Env) (t : SubscriptionTier) → env.now + milliseconds days ≤ look.now
    → let st' = (start_trial env user tier days st).1 in
      let ends = env.now + milliseconds days in
      ((is_in_trial later user st').0 ≡ ok (ltb later.now ends))
      × ((has_tier_access later user t st').0 ≡ ok (leb (rank t) (rank s.tier)))
      × ((has_tier_access later user t (get_user_subscription look user st').1).0
          ≡ ok (
              leb
                (rank t)
                (rank (if ltb (ends + default_billing_period_ms) later.now then free else s.tier))))
start_trial-Trial env user tier days st {s} e look later t h =
    let w = Ensures-ok (start_trial-Trying env user tier days st) e in
    let ends = env.now + milliseconds days in
    let st' = (start_trial env user tier days st).1 in
    (
      Trying-is_in_trial user ends s st' w later,
      Trying-access user ends s st' w later t,
      Trying-billed user ends s st' w look later t h,
    )
