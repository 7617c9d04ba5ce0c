-- ===== src/Subscriptions/Runs.antt =====
-- src/services/SubscriptionService.ts: what holds of the table whatever is called.
use audio_block_backend.Subscriptions.Access.{
  get_user_subscription-none, get_user_subscription-some,
}
use audio_block_backend.Subscriptions.Sound.{
  Sound, Current, nothing, held, save-Sound, insert-Sound, newest_active-none, newest_active-found,
  current-Current,
}
use audio_block_backend.Subscriptions.{
  ◌>>◌, throw_if, kept_date, Subscription, SubscriptionTier, Days, cancelled, Store, Error, Call,
  Env, resume, is_active, is_active_of, newest_active, is_id, is_positive, tier_of,
  get_user_subscription, create_or_upgrade_subscription, start_trial, cancel_subscription,
  is_in_trial, has_tier_access,
}
use audio_block_backend.Base.{
  ℕ, ◌≡◌, inl, inr, Bool, true, false, not, Option, none, some, List, [], ◌∷◌, arith, String,
  eq_iff, Bool-cases, Option-cases, Outcome, Ensures, find_row, count_rows, str_eq, ok, err, gives,
  throws,
}

pub get_user_subscription-Current :
    (env : Env) (user : String) (st : Store)
    → Sound st
    → Sound (get_user_subscription env user st).1
      × Ensures
          (Current user (get_user_subscription env user st).1)
          (get_user_subscription env user st).0
unfolding get_user_subscription
get_user_subscription-Current env user st v = elim (Bool-cases (str_eq user "")) [
  | inl h ↦ rw (get_user_subscription, h) (v, throws)
  | inr h ↦ elim (Option-cases (newest_active user st)) [
    | inl e ↦
        rw (get_user_subscription-none env user st h e)
          (v, gives (nothing (newest_active-none user st e)))
    | inr (s, e) ↦
        let (f, a) = newest_active-found user st v e in
        rw (get_user_subscription-some env user st h e) (current-Current env user s st v f a)
  ]
]

-- A call on the current subscription keeps the table sound, if what follows the read does, where
-- there is none and where there is one.
resume-Sound :
    {A : Type 0} (user : String) (r : Outcome Error (Option Subscription) × Store)
    (next : Option Subscription → Call A)
    → Sound r.1 × Ensures (Current user r.1) r.0
    → ((st : Store) → Sound st → count_rows (is_active_of user) st ≡ 0 → Sound (next none st).1)
    → ((s x : Subscription) (st : Store)
        → Sound st
        → find_row (is_id s.id) st ≡ some x
        → is_active_of user s ≡ true
        → is_active_of user x ≡ true
        → Sound (next (some s) st).1)
    → Sound (resume next r).1
resume-Sound user (err e, st) next (v, c) k l = v
resume-Sound user (ok none, st) next (v, gives (nothing z)) k l = k st v z
resume-Sound user (ok (some s), st) next (v, gives (held f a b)) k l = l s _ st v f a b

throw_if-Sound :
    {A : Type 0} (test : Bool) (e : Error) (call : Call A) (st : Store)
    → Sound st
    → Sound (call st).1
    → Sound ((throw_if test e >> call) st).1
throw_if-Sound true e call st v k = v
throw_if-Sound false e call st v k = k

same_user :
    (user : String) (s x : Subscription)
    → is_active_of user s ≡ true
    → is_active_of user x ≡ true
    → s.user_id ≡ x.user_id
same_user user s x a b = ground (arith, eq_iff user s.user_id, eq_iff user x.user_id)

is_active-of :
    (user : String) (x : Subscription) → is_active_of user x ≡ true → is_active x.status ≡ true
is_active-of user x a = ground arith

pub create_or_upgrade_subscription-Sound :
    (env : Env) (user tier : String) (end_date : Option ℕ) (st : Store)
    → Sound st
    → Sound (create_or_upgrade_subscription env user tier end_date st).1
unfolding create_or_upgrade_subscription
create_or_upgrade_subscription-Sound env user tier end_date st v =
    throw_if-Sound (str_eq user "") _ _ st v (
      throw_if-Sound (str_eq tier "") _ _ st v (elim (Option-cases (tier_of tier)) [
        | inl e ↦ rw e v
        | inr (t, e) ↦ rw e (
            resume-Sound user (get_user_subscription env user st) _
              (get_user_subscription-Current env user st v) (λ st' v' z. insert-Sound _ st' v' z)
              (λ s x st' v' f a b.
                save-Sound env (record s { tier = t; end_date = kept_date end_date s.end_date }) x
                  st' v' f (same_user user s x a b) (λ h. is_active-of user x b)))
      ]))

pub start_trial-Sound :
    (env : Env) (user tier : String) (days : Days) (st : Store)
    → Sound st
    → Sound (start_trial env user tier days st).1
unfolding start_trial
start_trial-Sound env user tier days st v =
    throw_if-Sound (str_eq user "") _ _ st v (elim (Option-cases (tier_of tier)) [
      | inl e ↦ rw e v
      | inr (t, e) ↦ rw e (
          throw_if-Sound (not (is_positive days)) _ _ st v (
            resume-Sound user (get_user_subscription env user st) _
              (get_user_subscription-Current env user st v) (λ st' v' z. insert-Sound _ st' v' z)
              (λ s x st' v' f a b. v')))
    ])

pub cancel_subscription-Sound :
    (env : Env) (user : String) (st : Store) → Sound st → Sound (cancel_subscription env user st).1
unfolding cancel_subscription
cancel_subscription-Sound env user st v = throw_if-Sound (str_eq user "") _ _ st v (
    resume-Sound user (get_user_subscription env user st) _
      (get_user_subscription-Current env user st v) (λ st' v' z. v')
      (λ s x st' v' f a b.
        save-Sound env (record s { status = cancelled }) x st' v' f (same_user user s x a b)
          (λ h. cc)))

-- A call of the service.
pub data Request : Type 0 where
  gets : String → Request
  upgrades : String → String → Option ℕ → Request
  tries : String → String → Days → Request
  asks_trial : String → Request
  cancels : String → Request
  asks_access : String → SubscriptionTier → Request

unfoldable pub after : Env → Request → Store → Store
after env (gets user) st = (get_user_subscription env user st).1
after env (upgrades user tier end_date) st =
    (create_or_upgrade_subscription env user tier end_date st).1
after env (tries user tier days) st = (start_trial env user tier days st).1
after env (asks_trial user) st = (is_in_trial env user st).1
after env (cancels user) st = (cancel_subscription env user st).1
after env (asks_access user t) st = (has_tier_access env user t st).1

unfoldable pub after_all : List (Env × Request) → Store → Store
unfolding after
after_all [] st = st
after_all ((env, r) ∷ more) st = after_all more (after env r st)

pub after-Sound : (env : Env) (r : Request) (st : Store) → Sound st → Sound (after env r st)
unfolding after is_in_trial has_tier_access
after-Sound env (gets user) st v = (get_user_subscription-Current env user st v).0
after-Sound env (upgrades user tier end_date) st v =
    create_or_upgrade_subscription-Sound env user tier end_date st v
after-Sound env (tries user tier days) st v = start_trial-Sound env user tier days st v
after-Sound env (cancels user) st v = cancel_subscription-Sound env user st v
after-Sound env (asks_trial user) st v =
    resume-Sound user (get_user_subscription env user st) _
      (get_user_subscription-Current env user st v) (λ st' v' z. v') (λ s x st' v' f a b. v')
after-Sound env (asks_access user t) st v =
    resume-Sound user (get_user_subscription env user st) _
      (get_user_subscription-Current env user st v) (λ st' v' z. v') (λ s x st' v' f a b. v')

-- Whatever is called on a sound table, in any order, at any times, by any users and whether or not
-- the calls throw, no two rows have an id and a user has one active subscription at most.
pub after_all-Sound :
    (calls : List (Env × Request)) (st : Store) → Sound st → Sound (after_all calls st)
unfolding after_all
after_all-Sound [] st v = v
after_all-Sound ((env, r) ∷ more) st v =
    after_all-Sound more (after env r st) (after-Sound env r st v)
