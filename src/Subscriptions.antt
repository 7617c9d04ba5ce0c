-- ===== src/Subscriptions.antt =====
-- src/services/SubscriptionService.ts over the table of src/entities/Subscription.ts. A call reads
-- the clock once; the dates that it computes stay in the range of Date. The database inserts no row
-- with the id of another. Rows are appended, so that the newest stands last.
pub mod Rows
pub mod Access
pub mod Sound
pub mod Steps
pub mod Runs
pub mod Cancel
pub mod Started
pub mod Trial
pub mod Entitled
use audio_block_backend.Pages.{newest_first}
use audio_block_backend.Base.{
  ℕ, zero, suc, ◌+◌, ◌-◌, ◌*◌, ◌/◌, ◌%◌, ◌^◌, ◌≤◌, ◌<◌, min, max, compare, Ordering, ◌≡◌, refl, sym,
  ap, ◌∙◌, subst, fun_ext, ◌≢◌, ◌↔◌, ◌⊎◌, inl, inr, Bool, true, false, not, ◌&&◌, ◌||◌, Option,
  none, some, List, [], ◌∷◌, ◌++◌, map, append-nil, append_assoc, arith, String, eq_iff, ltb, leb,
  ◌==◌, if◌then◌else◌, ltb→lt, lt→ltb, leb→le, ==_iff, tests, Bool-cases, Option-cases, List-cases,
  or-false_right, some_unique, Outcome, Ensures, refuse, >>=-ok_inv, >>=-Ensures, refuse-Ensures,
  Ensures-ok, Ensures-weaken, find_row, save_row, select_rows, delete_rows, count_rows,
  find_row_fits, find_row-save_row, find_row-save_row_other, find_row-delete_rows,
  find_row-delete_rows_other, find_row-append, find_row-append_some, count_rows-append,
  count_option, count_rows-save_row, select_rows-append, select_rows-delete_rows_other,
  select_rows-map_other, find_row-map, count_rows-map, count_rows-delete_rows, count_rows-none,
  delete_rows-append, find_row-append_other, find_row-uncounted, str_eq, str_eq_refl, ◌+s◌,
  non_empty, or_text, or_else, decimal, join_with, length, get_elem?, set, length-append,
  length-set, get_elem?-set_self, get_elem?-set_ne, get_or, take, drop, replicate, take-append-drop,
  length-take, length-drop, length-replicate, length-map, take-eq_self, trim, ok, err, gives,
  throws,
}

pub data SubscriptionTier : Type 0 where
  free artist_pro label : SubscriptionTier

pub data SubscriptionStatus : Type 0 where
  active cancelled expired : SubscriptionStatus

pub record Subscription : Type 0 where
  pub id : String
  pub user_id : String
  pub tier : SubscriptionTier
  pub status : SubscriptionStatus
  pub start_date : ℕ
  pub end_date : Option ℕ
  pub trial_ends_at : Option ℕ

abbrev pub Store : Type 0
Store = List Subscription

pub data Error : Type 0 where
  user_required tier_required invalid_tier invalid_trial_days already_active : Error
  no_active_subscription duplicate_id : Error

-- `skips_undefined`: whether a save of the database leaves a column as it is where the field is
-- undefined.
pub record Env : Type 0 where
  pub now : ℕ
  pub row_id : String
  pub skips_undefined : Bool

abbrev pub Call : Type 0 → Type 0
Call A = Store → Outcome Error A × Store

abbrev pub resume :
    {A B : Type 0} → (A → Call B) → Outcome Error A × Store → Outcome Error B × Store
resume next (ok a, st) = next a st
resume next (err e, st) = (err e, st)

-- What was saved before a throw stays saved.
infixl 5 ◌>>=◌ ◌>>◌
abbrev pub ◌>>=◌ : {A B : Type 0} → Call A → (A → Call B) → Call B
call >>= next = λ st. resume next (call st)

abbrev pub ◌>>◌ : {B : Type 0} → Call (Unit {0}) → Call B → Call B
check >> call = check >>= λ _. call

abbrev pub throw_if : Bool → Error → Call (Unit {0})
throw_if test e st = (if test then err e else ok tt, st)

abbrev pub give : {A : Type 0} → A → Call A
give a st = (ok a, st)

abbrev pub is_id : String → Subscription → Bool
is_id id s = str_eq id s.id

abbrev pub is_active : SubscriptionStatus → Bool
is_active active = true
is_active cancelled = false
is_active expired = false

abbrev pub is_active_of : String → Subscription → Bool
is_active_of user s = str_eq user s.user_id && is_active s.status

unfoldable pub newest_active : String → Store → Option Subscription
newest_active user st = find_row (is_active_of user) (newest_first st)

abbrev pub kept_date : Option ℕ → Option ℕ → Option ℕ
kept_date none old = old
kept_date (some d) old = some d

-- The row that a save of `s` leaves, from the row that it replaces.
unfoldable pub saved_row : Bool → Option Subscription → Subscription → Subscription
saved_row false old s = s
saved_row true none s = s
saved_row true (some old) s = record s {
  end_date = kept_date s.end_date old.end_date;
  trial_ends_at = kept_date s.trial_ends_at old.trial_ends_at;
}

unfoldable pub save : Env → Subscription → Call Subscription
unfolding saved_row
save env s st =
    let row = saved_row env.skips_undefined (find_row (is_id s.id) st) s in
    (ok s, save_row (is_id s.id) row st)

unfoldable pub insert : Subscription → Call Subscription
insert s st = elim (find_row (is_id s.id) st) [
  | some other ↦ (err duplicate_id, st)
  | none ↦ (ok s, st ++ s ∷ [])
]

abbrev pub default_billing_period_ms : ℕ
default_billing_period_ms = 30 * 24 * 60 * 60 * 1000

unfoldable pub is_over : ℕ → Subscription → Bool
is_over now s = elim s.end_date [ some d ↦ ltb d now | none ↦ false ]

-- `finalizeTrialTransition`, before the save: the trial ended at `t`.
unfoldable pub billed : ℕ → Subscription → Subscription
billed t s = record s {
  trial_ends_at = none;
  end_date = some (or_else s.end_date (t + default_billing_period_ms));
}

unfoldable pub finalize_trial_transition : Env → Subscription → Call Subscription
unfolding save billed
finalize_trial_transition env s = elim s.trial_ends_at [
  | none ↦ give s
  | some t ↦ save env (billed t s)
]

-- What the newest active row of a user comes to.
unfoldable pub current : Env → Subscription → Call (Option Subscription)
unfolding save is_over finalize_trial_transition
current env s =
    if is_over env.now s
    then (do s' ← save env (record s { status = expired }); give none)
    else (elim s.trial_ends_at [
      | none ↦ give (some s)
      | some t ↦
          if ltb env.now t
          then give (some s)
          else (do s' ← finalize_trial_transition env s; give (some s'))
    ])

unfoldable pub get_user_subscription : Env → String → Call (Option Subscription)
unfolding newest_active current
get_user_subscription env user = do
  throw_if (str_eq user "") user_required
  λ st. elim (newest_active user st) [ none ↦ (ok none, st) | some s ↦ current env s st ]

abbrev pub tier_of : String → Option SubscriptionTier
tier_of s =
    if str_eq s "free"
    then some free
    else if str_eq s "artist_pro"
    then some artist_pro
    else if str_eq s "label"
    then some label
    else none

unfoldable pub create_or_upgrade_subscription : Env → String → String → Option ℕ → Call Subscription
unfolding get_user_subscription save insert
create_or_upgrade_subscription env user tier end_date = do
  throw_if (str_eq user "") user_required
  throw_if (str_eq tier "") tier_required
  elim (tier_of tier) [
    | none ↦ λ st. (err invalid_tier, st)
    | some t ↦ get_user_subscription env user >>= (elim [
      | some s ↦ save env (record s { tier = t; end_date = kept_date end_date s.end_date })
      | none ↦ insert (record {
        id = env.row_id;
        user_id = user;
        tier = t;
        status = active;
        start_date = env.now;
        end_date = end_date;
        trial_ends_at = none;
      })
    ])
  ]

-- A JavaScript number of days: `ratio n d` is n / (d + 1).
pub data Days : Type 0 where
  not_finite : Days
  negative : ℕ → ℕ → Days
  ratio : ℕ → ℕ → Days

abbrev pub is_positive : Days → Bool
is_positive not_finite = false
is_positive (negative n d) = false
is_positive (ratio n d) = ltb 0 n

abbrev pub milliseconds : Days → ℕ
milliseconds not_finite = 0
milliseconds (negative n d) = 0
milliseconds (ratio n d) = n * (24 * 60 * 60 * 1000) / suc d

unfoldable pub start_trial : Env → String → String → Days → Call Subscription
unfolding get_user_subscription insert
start_trial env user tier days = do
  throw_if (str_eq user "") user_required
  elim (tier_of tier) [
    | none ↦ λ st. (err invalid_tier, st)
    | some t ↦ do
      throw_if (not (is_positive days)) invalid_trial_days
      get_user_subscription env user >>= (elim [
        | some s ↦ λ st. (err already_active, st)
        | none ↦ insert (record {
          id = env.row_id;
          user_id = user;
          tier = t;
          status = active;
          start_date = env.now;
          end_date = none;
          trial_ends_at = some (env.now + milliseconds days);
        })
      ])
  ]

abbrev pub in_trial_at : ℕ → Option Subscription → Bool
in_trial_at now none = false
in_trial_at now (some s) = elim s.trial_ends_at [ some t ↦ ltb now t | none ↦ false ]

unfoldable pub is_in_trial : Env → String → Call Bool
unfolding get_user_subscription
is_in_trial env user = do s ← get_user_subscription env user; give (in_trial_at env.now s)

unfoldable pub cancel_subscription : Env → String → Call Subscription
unfolding get_user_subscription save
cancel_subscription env user = do
  throw_if (str_eq user "") user_required
  get_user_subscription env user >>= (elim [
    | none ↦ λ st. (err no_active_subscription, st)
    | some s ↦ save env (record s { status = cancelled })
  ])

abbrev pub rank : SubscriptionTier → ℕ
rank free = 0
rank artist_pro = 1
rank label = 2

abbrev pub is_free : SubscriptionTier → Bool
is_free free = true
is_free artist_pro = false
is_free label = false

unfoldable pub has_tier_access : Env → String → SubscriptionTier → Call Bool
unfolding get_user_subscription
has_tier_access env user required = do
  s ← get_user_subscription env user
  give (elim s [ none ↦ is_free required | some s ↦ leb (rank required) (rank s.tier) ])
