-- ===== src/Webhooks/Health.antt =====
-- src/services/WebhookService.ts: the failures of a subscription in a row.
use audio_block_backend.Webhooks.{
  WebhookPayload, WebhookSubscription, WebhookDelivery, Store, Response, Env, is_ok, is_id, Run,
  record_attempt, reset_failures, wait_after, attempts, deliver,
}
use audio_block_backend.Webhooks.Publish.{
  EventData, register_subscription, delete_subscription, redeliver, cleanup_old_deliveries, publish,
}
use audio_block_backend.Base.{
  ℕ, zero, suc, ◌≡◌, refl, sym, subst, ◌⊎◌, inl, inr, Bool, ◌&&◌, Option, none, some, List, [],
  String, eq_iff, ltb, leb, Bool-cases, Option-cases, find_row, count_rows, str_eq, ok,
}

-- An active subscription with as many failures in a row as disable it.
abbrev pub is_overdue : ℕ → WebhookSubscription → Bool
is_overdue limit s = s.is_active && leb limit s.consecutive_failures

abbrev pub Healthy : ℕ → Store → Type 0
Healthy limit st = count_rows (is_overdue limit) st.subscriptions ≡ 0

pub record_attempt_subscriptions :
    (env : Env) (id : Option String) (payload : WebhookPayload) (a : ℕ) (x : Response) (r : Run)
    → (record_attempt env id payload a x r).store.subscriptions ≡ r.store.subscriptions
unfolding record_attempt
record_attempt_subscriptions env none payload a x r = refl
record_attempt_subscriptions env (some id) payload a x r =
    elim (Bool-cases (env.saves_delivery a)) [ inl e ↦ rw e refl | inr e ↦ rw e refl ]

pub wait_after_store : (env : Env) (a : ℕ) (r : Run) → (wait_after env a r).store ≡ r.store
unfolding wait_after
wait_after_store env a r = elim (Bool-cases (ltb a 2)) [ inl e ↦ rw e refl | inr e ↦ rw e refl ]

-- A property of the tables that each step of an attempt keeps.
module _ (P : Store → Type 0) (env : Env) (fetch : ℕ → Response) (id : Option String)
    (sub : Option WebhookSubscription) (payload : WebhookPayload)
    (records : (a : ℕ) (r : Run)
      → P r.store
      → P (record_attempt env id payload a (fetch a) r).store)
    (resets : (st : Store) → P st → P (reset_failures env sub st)) where
  pub attempts_keep :
      (left a : ℕ) (r : Run) → P r.store → P (attempts env fetch id sub payload left a r).1.store
  unfolding attempts
  attempts_keep zero a r v = v
  attempts_keep (suc left) a r v =
      let r' = record_attempt env id payload a (fetch a) r in
      elim (Bool-cases (is_ok (fetch a))) [
        | inl e ↦ rw (e, attempts) (resets r'.store (records a r v))
        | inr e ↦
            rw (e, attempts)
              (attempts_keep left (suc a) (wait_after env a r')
                (subst P (sym (wait_after_store env a r')) (records a r v)))
      ]

-- A redelivery changes nothing, or is a delivery for a subscription that the user owns.
pub redeliver_cases :
    (env : Env) (id delivery user : String) (st : Store)
    → ((redeliver env id delivery user st).1 ≡ st)
      ⊎ ((s : WebhookSubscription) × (payload : WebhookPayload) × (find_row
              (is_id id)
              st.subscriptions
            ≡ some s)
          × (s.user_id ≡ user)
          × ((redeliver env id delivery user st).1
              ≡ (deliver env s.endpoint payload s.secret (some s.id) st).1.store))
unfolding redeliver
redeliver_cases env id delivery user st =
    elim (Option-cases (find_row (is_id id) st.subscriptions)) [
      | inl e ↦ rw (e, redeliver) (inl refl)
      | inr (s, e) ↦ elim (Bool-cases (str_eq s.user_id user)) [
        | inr f ↦ rw (e, f, redeliver) (inl refl)
        | inl f ↦
            elim (Option-cases (
              find_row
                (λ (d : WebhookDelivery). str_eq delivery d.id && str_eq id d.subscription_id)
                st.deliveries)) [
                  | inl g ↦ rw (e, f, g, redeliver) (inl refl)
                  | inr (d, g) ↦ elim (Option-cases d.payload) [
                    | inl h ↦ rw (e, f, g, h, redeliver) (inl refl)
                    | inr (p, h) ↦
                        inr (s, p, e, (eq_iff s.user_id user).0 f, rw (e, f, g, h, redeliver) refl)
                  ]
                ]
      ]
    ]

-- The operations that change the tables; the worlds agree on the number of failures that disable.
pub data Step (limit : ℕ) : Store → Store → Type 0 where
  registers :
      {st st' : Store} {s : WebhookSubscription} (scheme_of : String → Option String)
      (id random user endpoint : String) (types : Option (List String)) (provided : Option String)
      → register_subscription scheme_of id random user endpoint types provided st ≡ ok (s, st')
      → Step limit st st'
  deletes :
      {st st' : Store} (user id : String)
      → delete_subscription user id st ≡ ok st'
      → Step limit st st'
  publishes :
      {st : Store} (queries : Bool) (envs : WebhookSubscription → Env) (id type : String)
      (given : EventData)
      → ((s : WebhookSubscription) → (envs s).max_failures ≡ limit)
      → Step limit st (publish queries envs id type given st)
  redelivers :
      {st : Store} (env : Env) (id delivery user : String)
      → env.max_failures ≡ limit
      → Step limit st (redeliver env id delivery user st).1
  cleans : {st : Store} (now days : ℕ) → Step limit st (cleanup_old_deliveries now days st).1

pub data Reach (limit : ℕ) : Store → Type 0 where
  begin : Reach limit (record { subscriptions = []; deliveries = []; notifications = [] })
  next : {st st' : Store} → Reach limit st → Step limit st st' → Reach limit st'
