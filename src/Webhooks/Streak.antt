-- ===== src/Webhooks/Streak.antt =====
-- src/services/WebhookService.ts: what failed events in a row do to a subscription.
use audio_block_backend.Webhooks.{
  WebhookPayload, WebhookSubscription, Store, Response, Env, is_ok, is_id, Run, record_attempt,
  save_subscription, wait_after, attempts, count_failure, after_attempts, subscription_for, id_for,
  deliver,
}
use audio_block_backend.Webhooks.Attempts.{request_of}
use audio_block_backend.Webhooks.Health.{record_attempt_subscriptions, wait_after_store}
use audio_block_backend.Base.{
  ℕ, zero, suc, ◌+◌, ◌≤◌, ◌<◌, ◌≡◌, refl, sym, ap, ◌∙◌, inl, inr, Bool, true, false, not, ◌&&◌,
  Option, none, some, List, [], arith, String, ltb, leb, lt→ltb, Bool-cases, find_row,
  find_row-save_row, str_eq, str_eq_refl,
}

-- No attempt is answered well.
abbrev pub Fails : (ℕ → Response) → Type 0
Fails fetch = (k : ℕ) → is_ok (fetch k) ≡ false

attempts_fail :
    (env : Env) (fetch : ℕ → Response) (id : Option String) (sub : Option WebhookSubscription)
    (payload : WebhookPayload) (left a : ℕ) (r : Run)
    → Fails fetch
    → ((attempts env fetch id sub payload left a r).0 ≡ false)
      × ((attempts env fetch id sub payload left a r).1.store.subscriptions ≡ r.store.subscriptions)
unfolding attempts
attempts_fail env fetch id sub payload zero a r fails = (refl, refl)
attempts_fail env fetch id sub payload (suc left) a r fails =
    let r' = record_attempt env id payload a (fetch a) r in
    let (e, f) = attempts_fail env fetch id sub payload left (suc a) (wait_after env a r') fails in
    let same =
      ap (λ (x : Store). x.subscriptions) (wait_after_store env a r')
      ∙ record_attempt_subscriptions env id payload a (fetch a) r in
    rw (fails a, attempts) (e, f ∙ same)

-- The world of a delivery where every attempt fails and the database works.
pub record Failing (env : Env) (endpoint : String) (payload : WebhookPayload) (secret : String)
    : Type 0 where
  pub fails : Fails (env.fetch (request_of env endpoint payload secret))
  pub reads : env.reads_subscription ≡ true

-- The subscription after one more failed event.
abbrev pub with_failure : ℕ → WebhookSubscription → WebhookSubscription
with_failure limit s = record s {
  consecutive_failures = s.consecutive_failures + 1;
  is_active = s.is_active && not (leb limit (s.consecutive_failures + 1));
}

subscription_found :
    (env : Env) (endpoint : String) (s : WebhookSubscription) (st : Store)
    → env.reads_subscription ≡ true
    → str_eq s.id "" ≡ false
    → find_row (is_id s.id) st.subscriptions ≡ some s
    → subscription_for env (some s.id) endpoint st ≡ some s
unfolding subscription_for
subscription_found env endpoint s st reads named found = rw (reads, named) found

count_failure_counts :
    (env : Env) (s : WebhookSubscription) (st : Store)
    → env.saves_subscription ≡ true
    → env.notifies ≡ true
    → find_row (is_id s.id) (count_failure env s st).subscriptions
      ≡ some (with_failure env.max_failures s)
unfolding count_failure save_subscription
count_failure_counts env s st saves notifies =
    let here = λ (x : WebhookSubscription) (rows : List WebhookSubscription).
      find_row-save_row (is_id s.id) x rows in
    elim (Bool-cases (leb env.max_failures (s.consecutive_failures + 1))) [
      | inl e ↦ elim (Bool-cases s.is_active) [
        | inl f ↦ rw (e, f, notifies, saves) (here _ st.subscriptions (str_eq_refl s.id))
        | inr f ↦ rw (e, f, saves) (here _ st.subscriptions (str_eq_refl s.id))
      ]
      | inr e ↦ elim (Bool-cases s.is_active) [
        | inl f ↦ rw (e, f, saves) (here _ st.subscriptions (str_eq_refl s.id))
        | inr f ↦ rw (e, f, saves) (here _ st.subscriptions (str_eq_refl s.id))
      ]
    ]

after_fail :
    (env : Env) (s : WebhookSubscription) (out : Bool × Run)
    → out.0 ≡ false
    → (after_attempts env (some s) out).1.store ≡ count_failure env s out.1.store
unfolding after_attempts
after_fail env s (true, r) e = cc
after_fail env s (false, r) e = refl

pub deliver_fails :
    (env : Env) (endpoint : String) (payload : WebhookPayload) (secret : String)
    (s : WebhookSubscription) (st : Store)
    → Failing env endpoint payload secret
    → str_eq s.id "" ≡ false
    → find_row (is_id s.id) st.subscriptions ≡ some s
    → (r : Run) × (r.store.subscriptions ≡ st.subscriptions)
      × ((deliver env endpoint payload secret (some s.id) st).1.store ≡ count_failure env s r.store)
unfolding deliver
deliver_fails env endpoint payload secret s st failing named found =
    let fetch = env.fetch (request_of env endpoint payload secret) in
    let sub = subscription_found env endpoint s st failing.reads named found in
    let sub' = subscription_for env (some s.id) endpoint st in
    let start : Run = record { last = none; waits = []; store = st } in
    let out = attempts env fetch (id_for (some s.id) sub') sub' payload 3 0 start in
    let (lost, same) =
      attempts_fail env fetch (id_for (some s.id) sub') sub' payload 3 0 start failing.fails in
    (out.1, same, ap (λ o. (after_attempts env o out).1.store) sub ∙ after_fail env s out lost)

-- Deliveries one after the other, each in a world of its own.
pub deliver_times : (ℕ → Env) → String → (ℕ → WebhookPayload) → String → String → ℕ → Store → Store
deliver_times envs endpoint payloads secret id zero st = st
deliver_times envs endpoint payloads secret id (suc n) st =
    (deliver (envs n) endpoint (payloads n) secret (some id)
      (deliver_times envs endpoint payloads secret id n st)).1.store

-- Events that fail, while the database and the notifications work.
pub record Outage (envs : ℕ → Env) (endpoint : String) (payloads : ℕ → WebhookPayload)
    (secret : String) (limit : ℕ) : Type 0 where
  pub failing : (n : ℕ) → Failing (envs n) endpoint (payloads n) secret
  pub saves : (n : ℕ) → (envs n).saves_subscription ≡ true
  pub notifies : (n : ℕ) → (envs n).notifies ≡ true
  pub limits : (n : ℕ) → (envs n).max_failures ≡ limit

-- The subscription after some failed events.
abbrev pub after_failures : ℕ → ℕ → WebhookSubscription → WebhookSubscription
after_failures limit n s = record s { consecutive_failures = n; is_active = ltb n limit }

-- In an outage an active subscription without failures counts every event that fails, stays active
-- before it has as many as disable it, and is inactive from then on.
pub Outage-disables :
    (limit : ℕ) (envs : ℕ → Env) (endpoint : String) (payloads : ℕ → WebhookPayload)
    (secret : String) (s : WebhookSubscription) (st : Store) (n : ℕ)
    → 0 < limit
    → Outage envs endpoint payloads secret limit
    → str_eq s.id "" ≡ false
    → s.consecutive_failures ≡ 0
    → s.is_active ≡ true
    → find_row (is_id s.id) st.subscriptions ≡ some s
    → find_row (is_id s.id) (deliver_times envs endpoint payloads secret s.id n st).subscriptions
      ≡ some (after_failures limit n s)
unfolding deliver_times
Outage-disables limit envs endpoint payloads secret s st zero positive outage named none_yet active
      found =
    let now_active = active ∙ sym (lt→ltb 0 limit positive) in
    found ∙ (λ i. some (record s { consecutive_failures = none_yet i; is_active = now_active i }))
Outage-disables limit envs endpoint payloads secret s st (suc n) positive outage named none_yet
      active found =
    let before =
      Outage-disables limit envs endpoint payloads secret s st n positive outage named none_yet
        active found in
    let old = after_failures limit n s in
    let st' = deliver_times envs endpoint payloads secret s.id n st in
    let (r, same, after) =
      deliver_fails (envs n) endpoint (payloads n) secret old st' (outage.failing n) named before in
    let count : n + 1 ≡ suc n = omega arith in
    let still : (ltb n limit && not (leb (envs n).max_failures (n + 1))) ≡ ltb (suc n) limit =
      ground (arith, outage.limits n) in
    ap (λ (x : Store). find_row (is_id s.id) x.subscriptions) after
    ∙ count_failure_counts (envs n) old r.store (outage.saves n) (outage.notifies n)
    ∙ (λ i. some (record s { consecutive_failures = count i; is_active = still i }))

-- Where the notification of the owner fails, the subscription that should be disabled is left as it
-- was: active, and one failure short of the number that disables it.
pub unnotified_stays :
    (env : Env) (endpoint : String) (payload : WebhookPayload) (secret : String)
    (s : WebhookSubscription) (st : Store)
    → Failing env endpoint payload secret
    → env.notifies ≡ false
    → str_eq s.id "" ≡ false
    → find_row (is_id s.id) st.subscriptions ≡ some s
    → s.is_active ≡ true
    → env.max_failures ≤ s.consecutive_failures + 1
    → (deliver env endpoint payload secret (some s.id) st).1.store.subscriptions ≡ st.subscriptions
unfolding count_failure
unnotified_stays env endpoint payload secret s st failing silent named found active enough =
    let (r, same, after) = deliver_fails env endpoint payload secret s st failing named found in
    ap (λ (x : Store). x.subscriptions) after
    ∙ (let e : leb env.max_failures (s.consecutive_failures + 1) ≡ true = ground (arith, enough) in
        rw (e, active, silent) same)
