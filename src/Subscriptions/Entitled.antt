-- ===== src/Subscriptions/Entitled.antt =====
-- src/services/SubscriptionService.ts: which tiers a user has access to, as the table says it.
use audio_block_backend.Subscriptions.Rows.{find_row-newest_first, find_row-count_zero}
use audio_block_backend.Subscriptions.Access.{tier_in, tier_at, has_tier_access-tier_at}
use audio_block_backend.Subscriptions.Sound.{Sound}
use audio_block_backend.Subscriptions.{
  SubscriptionTier, free, artist_pro, label, SubscriptionStatus, active, Subscription, Store, Env,
  is_active, is_active_of, newest_active, is_over, has_tier_access, rank,
}
use audio_block_backend.Base.{
  ℕ, suc, ◌≤◌, ◌≡◌, refl, sym, ap, ◌∙◌, subst, ◌↔◌, inl, inr, Bool, true, false, Option, none, some,
  List, [], ◌∷◌, ◌++◌, arith, String, eq_iff, ltb, leb, Bool-cases, Option-cases, some_unique,
  find_row, count_rows, find_row_fits, str_eq, ok,
}

-- A subscription to the first tier has what the second one has.
pub data Covers : SubscriptionTier → SubscriptionTier → Type 0 where
  any_free : {t : SubscriptionTier} → Covers t free
  pro_pro : Covers artist_pro artist_pro
  label_pro : Covers label artist_pro
  label_label : Covers label label

-- The period has not ended, or has no end.
pub data Running (now : ℕ) : Option ℕ → Type 0 where
  endless : Running now none
  before_end : {d : ℕ} → now ≤ d → Running now (some d)

pub data Entitled (now : ℕ) (user : String) (t : SubscriptionTier) (st : Store) : Type 0 where
  for_all : t ≡ free → Entitled now user t st
  by_row :
      (before after : List Subscription) (s : Subscription)
      → st ≡ before ++ s ∷ after
      → s.user_id ≡ user
      → s.status ≡ active
      → Running now s.end_date
      → Covers s.tier t
      → Entitled now user t st

rank-Covers : (s t : SubscriptionTier) → leb (rank t) (rank s) ≡ true → Covers s t
rank-Covers s free h = any_free
rank-Covers free artist_pro h = cc
rank-Covers artist_pro artist_pro h = pro_pro
rank-Covers label artist_pro h = label_pro
rank-Covers free label h = cc
rank-Covers artist_pro label h = cc
rank-Covers label label h = label_label

Covers-rank : {s t : SubscriptionTier} → Covers s t → leb (rank t) (rank s) ≡ true
Covers-rank {s = free} any_free = refl
Covers-rank {s = artist_pro} any_free = refl
Covers-rank {s = label} any_free = refl
Covers-rank pro_pro = refl
Covers-rank label_pro = refl
Covers-rank label_label = refl

not_over-Running : (now : ℕ) (s : Subscription) → is_over now s ≡ false → Running now s.end_date
unfolding is_over
not_over-Running now s h = elim (Option-cases s.end_date) [
  | inl e ↦ rw e endless
  | inr (d, e) ↦ rw e (before_end (let h' : ltb d now ≡ false = rw e at h in ground arith))
]

Running-not_over :
    (now : ℕ) (s : Subscription) (o : Option ℕ)
    → s.end_date ≡ o
    → Running now o
    → is_over now s ≡ false
unfolding is_over
Running-not_over now s _ e endless = rw e refl
Running-not_over now s _ e (before_end h) = rw e (ground arith)

active_alone : (x : SubscriptionStatus) → is_active x ≡ true → x ≡ active
active_alone SubscriptionStatus.active h = refl
active_alone SubscriptionStatus.cancelled h = cc
active_alone SubscriptionStatus.expired h = cc

find_row-split :
    (p : Subscription → Bool) (rows : List Subscription) {s : Subscription}
    → find_row p rows ≡ some s
    → (before : List Subscription) × (after : List Subscription) × (rows ≡ before ++ s ∷ after)
unfolding find_row
find_row-split p [] e = cc
find_row-split p (x ∷ rows) {s} e = elim (Bool-cases (p x)) [
  | inl h ↦ let same : x ≡ s = some_unique _ refl (rw h at e) in ([], rows, ap (λ y. y ∷ rows) same)
  | inr h ↦
      let (before, after, f) = find_row-split p rows (rw h at e) in
      (x ∷ before, after, ap (◌∷◌ x) f)
]

find_row-only :
    (p : Subscription → Bool) (before after : List Subscription) (s : Subscription)
    → count_rows p (before ++ s ∷ after) ≤ 1
    → p s ≡ true
    → find_row p (before ++ s ∷ after) ≡ some s
unfolding find_row count_rows
find_row-only p [] after s h f = rw f refl
find_row-only p (x ∷ before) after s h f = elim (Bool-cases (p x)) [
  | inl e ↦
      let h' : suc (count_rows p (before ++ s ∷ after)) ≤ 1 = rw e at h in
      let there = find_row-only p before after s (omega arith) f in
      absurd (cc (sym there ∙ find_row-count_zero p (before ++ s ∷ after) (omega arith)))
  | inr e ↦ rw e (find_row-only p before after s (rw e at h) f)
]

-- The tier of a user is that of the one active row, whatever else the table holds.
newest_active-find :
    (user : String) (st : Store)
    → Sound st
    → newest_active user st ≡ find_row (is_active_of user) st
unfolding newest_active
newest_active-find user st v = find_row-newest_first (is_active_of user) st (v.active_once user)

Covers-free : {t : SubscriptionTier} → Covers free t → t ≡ free
Covers-free any_free = refl

fits_of :
    (user : String) (s : Subscription)
    → is_active_of user s ≡ true
    → (s.user_id ≡ user) × (s.status ≡ active)
fits_of user s h = (ground (arith, eq_iff user s.user_id), active_alone s.status (ground arith))

fits :
    (user : String) (s : Subscription)
    → s.user_id ≡ user
    → s.status ≡ active
    → is_active_of user s ≡ true
fits user s e f = ground (arith, eq_iff user s.user_id, ap is_active f)

tier_at-Entitled :
    (now : ℕ) (user : String) (t : SubscriptionTier) (st : Store)
    → Sound st
    → Covers (tier_at now user st) t
    → Entitled now user t st
unfolding tier_at
tier_at-Entitled now user t st v c = elim (Option-cases (newest_active user st)) [
  | inl e ↦ for_all (Covers-free (subst (λ o. Covers (tier_in now o) t) e c))
  | inr (s, e) ↦
      let c' = subst (λ o. Covers (tier_in now o) t) e c in
      elim (Bool-cases (is_over now s)) [
        | inl over ↦ for_all (Covers-free (rw over at c'))
        | inr on ↦
            let found = sym (newest_active-find user st v) ∙ e in
            let (before, after, split) = find_row-split (is_active_of user) st found in
            let (own, alive) = fits_of user s (find_row_fits (is_active_of user) st s found) in
            by_row before after s split own alive (not_over-Running now s on) (rw on at c')
      ]
]

Entitled-tier_at :
    (now : ℕ) (user : String) (t : SubscriptionTier) (st : Store)
    → Sound st
    → Entitled now user t st
    → Covers (tier_at now user st) t
unfolding tier_at
Entitled-tier_at now user t st v (for_all e) = rw e any_free
Entitled-tier_at now user t st v (by_row before after s split own alive running covers) =
    let once = subst (λ rows. count_rows (is_active_of user) rows ≤ 1) split (v.active_once user) in
    let there = find_row-only (is_active_of user) before after s once (fits user s own alive) in
    let newest = newest_active-find user st v ∙ ap (find_row (is_active_of user)) split ∙ there in
    let on = Running-not_over now s s.end_date refl running in
    subst (λ o. Covers (tier_in now o) t) (sym newest) (rw on covers)

-- In a sound table, a user has access to a tier just if the tier is the free one, or the table has a
-- row of the user that is active, that has no end or an end that is not past, and whose tier covers
-- it: the label tier covers all, and the artist tier itself.
pub has_tier_access-Entitled :
    (env : Env) (user : String) (t : SubscriptionTier) (st : Store)
    → Sound st
    → str_eq user "" ≡ false
    → (b : Bool) × ((has_tier_access env user t st).0 ≡ ok b)
      × ((b ≡ true) ↔ Entitled env.now user t st)
has_tier_access-Entitled env user t st v h = (
  leb (rank t) (rank (tier_at env.now user st)),
  has_tier_access-tier_at env user t st h,
  (
    λ e. tier_at-Entitled env.now user t st v (rank-Covers _ t e),
    λ w. Covers-rank (Entitled-tier_at env.now user t st v w),
  ),
)
