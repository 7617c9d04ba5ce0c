-- ===== src/Subscriptions/Started.antt =====
-- src/services/SubscriptionService.ts: the start of a trial.
use audio_block_backend.Subscriptions.Steps.{resume-Ensures, throw_if-Ensures}
use audio_block_backend.Subscriptions.{
  already_active, Subscription, SubscriptionTier, active, Store, Env, Call, Days, milliseconds,
  is_positive, is_id, is_active_of, insert, start_trial, tier_of, get_user_subscription,
}
use audio_block_backend.Base.{
  ℕ, ◌+◌, ◌≡◌, refl, inl, inr, true, false, not, Option, none, some, [], ◌∷◌, ◌++◌, arith, String,
  Option-cases, Ensures, find_row, str_eq, str_eq_refl, err, gives, throws,
}

-- The table holds the trial `s` of the user as its newest row.
pub record Trying (user : String) (ends : ℕ) (s : Subscription) (st : Store) : Type 0 where
  pub older : Store
  pub holds : st ≡ older ++ s ∷ []
  pub own_id : find_row (is_id s.id) older ≡ none
  pub named : str_eq user "" ≡ false
  pub fits : is_active_of user s ≡ true
  pub unbilled : s.end_date ≡ none
  pub on_trial : s.trial_ends_at ≡ some ends

insert-Trying :
    (user : String) (ends : ℕ) (s : Subscription) (st : Store)
    → str_eq user "" ≡ false
    → is_active_of user s ≡ true
    → s.end_date ≡ none
    → s.trial_ends_at ≡ some ends
    → Ensures (λ x. Trying user ends x (insert s st).1) (insert s st).0
unfolding insert
insert-Trying user ends s st h a b c = elim (Option-cases (find_row (is_id s.id) st)) [
  | inr (x, e) ↦ rw (insert, e) throws
  | inl e ↦
      rw (insert, e)
        (gives (record {
          older = st;
          holds = refl;
          own_id = e;
          named = h;
          fits = a;
          unbilled = b;
          on_trial = c;
        }))
]

unfoldable starting :
    Env → String → SubscriptionTier → Days → Option Subscription → Call Subscription
unfolding insert
starting env user t days = elim [
  | some s ↦ λ st. (err already_active, st)
  | none ↦ insert (record {
    id = env.row_id;
    user_id = user;
    tier = t;
    status = active;
    start_date = env.now;
    end_date = none;
    trial_ends_at = some (env.now + milliseconds days);
  })
]

starting-Trying :
    (env : Env) (user : String) (t : SubscriptionTier) (days : Days) (o : Option Subscription)
    (st : Store)
    → str_eq user "" ≡ false
    → Ensures
        (λ s. Trying user (env.now + milliseconds days) s (starting env user t days o st).1)
        (starting env user t days o st).0
unfolding starting
starting-Trying env user t days (some s) st h = throws
starting-Trying env user t days none st h =
    insert-Trying user (env.now + milliseconds days) _ st h (ground (arith, str_eq_refl user)) refl
      refl

pub start_trial-Trying :
    (env : Env) (user tier : String) (days : Days) (st : Store)
    → Ensures
        (λ s. Trying user (env.now + milliseconds days) s (start_trial env user tier days st).1)
        (start_trial env user tier days st).0
unfolding start_trial starting
start_trial-Trying env user tier days st =
    let ends = env.now + milliseconds days in
    throw_if-Ensures (str_eq user "") _ _ (Trying user ends) st (λ h.
      elim (Option-cases (tier_of tier)) [
        | inl e ↦ rw e throws
        | inr (t, e) ↦ rw e (
            throw_if-Ensures (not (is_positive days)) _ _ (Trying user ends) st (λ _.
              resume-Ensures (get_user_subscription env user st) _ (Trying user ends)
                (λ o st' f. starting-Trying env user t days o st' h)))
      ])
