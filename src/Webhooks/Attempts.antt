-- ===== src/Webhooks/Attempts.antt =====
-- src/services/WebhookService.ts: the attempts of a delivery, their log and the waits between them.
use audio_block_backend.Webhooks.{
  WebhookPayload, WebhookSubscription, WebhookDelivery, Store, Response, Request, Env, Error,
  delivery_failed, is_ok, attempt_row, Run, record_attempt, save_subscription, reset_failures,
  wait_after, max_retries, attempts, count_failure, after_attempts, subscription_for, id_for,
  deliver,
}
use audio_block_backend.Base.{
  ℕ, zero, suc, ◌+◌, ◌-◌, ◌*◌, ◌^◌, ◌<◌, ◌≡◌, refl, sym, ap, ◌∙◌, subst, ◌⊎◌, inl, inr, Bool, true,
  false, ◌&&◌, Option, none, some, List, [], ◌∷◌, ◌++◌, append-nil, append_assoc, arith, String,
  ltb, leb, lt→ltb, Bool-cases, Outcome, ok, err,
}

-- The rows of some attempts from one on, and the waits after them.
pub rows_from : Env → String → WebhookPayload → (ℕ → Response) → ℕ → ℕ → List WebhookDelivery
rows_from env id payload fetch a zero = []
rows_from env id payload fetch a (suc n) =
    attempt_row env id payload a (fetch a) ∷ rows_from env id payload fetch (suc a) n

pub waits_from : Env → ℕ → ℕ → List ℕ
waits_from env a zero = []
waits_from env a (suc n) = (2 ^ a * env.base_ms) ∷ waits_from env (suc a) n

save_subscription_deliveries :
    (env : Env) (s : WebhookSubscription) (st : Store)
    → (save_subscription env s st).deliveries ≡ st.deliveries
unfolding save_subscription
save_subscription_deliveries env s st = elim (Bool-cases env.saves_subscription) [
  | inl e ↦ rw e refl
  | inr e ↦ rw e refl
]

reset_failures_deliveries :
    (env : Env) (sub : Option WebhookSubscription) (st : Store)
    → (reset_failures env sub st).deliveries ≡ st.deliveries
unfolding reset_failures
reset_failures_deliveries env none st = refl
reset_failures_deliveries env (some s) st = elim (Bool-cases (ltb 0 s.consecutive_failures)) [
  | inl e ↦ rw e (save_subscription_deliveries env _ st)
  | inr e ↦ rw e refl
]

-- What the attempts from one on have done: some failed ones, then a last one.
pub record Attempted (env : Env) (id : String) (payload : WebhookPayload) (fetch : ℕ → Response)
    (a left : ℕ) (r : Run) (out : Bool × Run) : Type 0 where
  pub failures : ℕ
  pub within : failures < left
  pub failed : (k : ℕ) → k < failures → is_ok (fetch (a + k)) ≡ false
  pub result : out.0 ≡ is_ok (fetch (a + failures))
  pub ends : (out.0 ≡ true) ⊎ (suc failures ≡ left)
  pub log :
      out.1.store.deliveries ≡ r.store.deliveries ++ rows_from env id payload fetch a (suc failures)
  pub waited : out.1.waits ≡ r.waits ++ waits_from env a failures

recorded :
    (env : Env) (id : String) (payload : WebhookPayload) (a : ℕ) (x : Response) (r : Run)
    → env.saves_delivery a ≡ true
    → record_attempt env (some id) payload a x r ≡ record r {
      last = some (attempt_row env id payload a x);
      store = record r.store {
        deliveries = r.store.deliveries ++ attempt_row env id payload a x ∷ [];
      };
    }
unfolding record_attempt
recorded env id payload a x r e = rw e refl

shifted :
    (fetch : ℕ → Response) (n a : ℕ)
    → is_ok (fetch a) ≡ false
    → ((k : ℕ) → k < n → is_ok (fetch (suc a + k)) ≡ false)
    → (k : ℕ) → k < suc n
    → is_ok (fetch (a + k)) ≡ false
shifted fetch n a e rest zero h =
    let here : a + 0 ≡ a = omega arith in ap (λ k. is_ok (fetch k)) here ∙ e
shifted fetch n a e rest (suc k) h =
    let here : a + suc k ≡ suc a + k = omega arith in
    ap (λ k. is_ok (fetch k)) here ∙ rest k (omega arith)

-- A wait follows each attempt but the last.
waited_after :
    (env : Env) (a : ℕ) (r : Run)
    → a < max_retries - 1
    → wait_after env a r ≡ record r { waits = r.waits ++ (2 ^ a * env.base_ms) ∷ [] }
unfolding wait_after
waited_after env a r h = rw (lt→ltb a (max_retries - 1) h) refl

not_waited :
    (env : Env) (a : ℕ) (r : Run) → ltb a (max_retries - 1) ≡ false → wait_after env a r ≡ r
unfolding wait_after
not_waited env a r h = rw h refl

module _ (env : Env) (fetch : ℕ → Response) (id : String) (sub : Option WebhookSubscription)
    (payload : WebhookPayload) (saves : (k : ℕ) → env.saves_delivery k ≡ true) where
  answered_first :
      (left a : ℕ) (r : Run)
      → is_ok (fetch a) ≡ true
      → Attempted env id payload fetch a
          (suc left)
          r
          (attempts env fetch (some id) sub payload (suc left) a r)
  unfolding attempts rows_from waits_from
  answered_first left a r e =
      let same = recorded env id payload a (fetch a) r (saves a) in
      let here : a + 0 ≡ a = omega arith in
      rw (e, attempts)
        (record {
          failures = 0;
          within = omega arith;
          failed = λ k h. absurd (omega arith);
          result = sym (ap (λ k. is_ok (fetch k)) here ∙ e);
          ends = inl refl;
          log = reset_failures_deliveries env sub _ ∙ ap (λ (x : Run). x.store.deliveries) same;
          waited = ap (λ (x : Run). x.waits) same ∙ sym (append-nil r.waits);
        })

  failed_last :
      (a : ℕ) (r : Run)
      → is_ok (fetch a) ≡ false
      → ltb a (max_retries - 1) ≡ false
      → Attempted env id payload fetch a 1 r (attempts env fetch (some id) sub payload 1 a r)
  unfolding attempts rows_from waits_from
  failed_last a r e last =
      let same =
        not_waited env a (record_attempt env (some id) payload a (fetch a) r) last
        ∙ recorded env id payload a (fetch a) r (saves a) in
      let here : a + 0 ≡ a = omega arith in
      rw (e, attempts)
        (record {
          failures = 0;
          within = omega arith;
          failed = λ k h. absurd (omega arith);
          result = sym (ap (λ k. is_ok (fetch k)) here ∙ e);
          ends = inr refl;
          log = ap (λ (x : Run). x.store.deliveries) same;
          waited = ap (λ (x : Run). x.waits) same ∙ sym (append-nil r.waits);
        })

  failed_before :
      (left a : ℕ) (r : Run)
      → is_ok (fetch a) ≡ false
      → a < max_retries - 1
      → ((r' : Run)
          → Attempted env id payload fetch
              (suc a)
              left
              r'
              (attempts env fetch (some id) sub payload left (suc a) r'))
      → Attempted env id payload fetch a
          (suc left)
          r
          (attempts env fetch (some id) sub payload (suc left) a r)
  unfolding attempts rows_from waits_from
  failed_before left a r e more rest =
      let same =
        waited_after env a (record_attempt env (some id) payload a (fetch a) r) more
        ∙ ap (λ (x : Run). record x { waits = x.waits ++ (2 ^ a * env.base_ms) ∷ [] })
            (recorded env id payload a (fetch a) r (saves a)) in
      let i = rest (wait_after env a (record_attempt env (some id) payload a (fetch a) r)) in
      let here : suc a + i.failures ≡ a + suc i.failures = omega arith in
      rw (e, attempts)
        (record {
          failures = suc i.failures;
          within = omega (arith, i.within);
          failed = shifted fetch i.failures a e i.failed;
          result = i.result ∙ ap (λ k. is_ok (fetch k)) here;
          ends = elim i.ends [ inl t ↦ inl t | inr q ↦ inr (omega (arith, q)) ];
          log =
              i.log
              ∙ ap
                  (λ (x : Run).
                    x.store.deliveries ++ rows_from env id payload fetch (suc a) (suc i.failures))
                  same
              ∙ append_assoc r.store.deliveries (attempt_row env id payload a (fetch a) ∷ [])
                  (rows_from env id payload fetch (suc a) (suc i.failures));
          waited =
              i.waited
              ∙ ap (λ (x : Run). x.waits ++ waits_from env (suc a) i.failures) same
              ∙ append_assoc r.waits ((2 ^ a * env.base_ms) ∷ [])
                  (waits_from env (suc a) i.failures);
        })

  attempts-Attempted :
      (left a : ℕ) (r : Run)
      → a + suc left ≡ max_retries
      → Attempted env id payload fetch a
          (suc left)
          r
          (attempts env fetch (some id) sub payload (suc left) a r)
  attempts-Attempted zero a r total = elim (Bool-cases (is_ok (fetch a))) [
    | inl e ↦ answered_first 0 a r e
    | inr e ↦
        let two : 2 ≡ a = omega (arith, total) in
        failed_last a r e (subst (λ k. ltb k 2 ≡ false) two refl)
  ]
  attempts-Attempted (suc left) a r total = elim (Bool-cases (is_ok (fetch a))) [
    | inl e ↦ answered_first (suc left) a r e
    | inr e ↦
        failed_before (suc left) a r e (omega (arith, total))
          (λ r'. attempts-Attempted left (suc a) r' (omega (arith, total)))
  ]

count_failure_deliveries :
    (env : Env) (s : WebhookSubscription) (st : Store)
    → (count_failure env s st).deliveries ≡ st.deliveries
unfolding count_failure
count_failure_deliveries env s st =
    elim (Bool-cases (leb env.max_failures (s.consecutive_failures + 1) && s.is_active)) [
      | inr e ↦ rw e (save_subscription_deliveries env _ st)
      | inl e ↦ elim (Bool-cases env.notifies) [
        | inl f ↦ rw (e, f) (save_subscription_deliveries env _ _)
        | inr f ↦ rw (e, f) refl
      ]
    ]

-- The request of a delivery.
abbrev pub request_of : Env → String → WebhookPayload → String → Request
request_of env endpoint payload secret = record {
  endpoint = endpoint;
  signature = env.sign_payload payload secret;
  payload = payload;
}

-- What a delivery has done, for the subscription that its rows name.
pub record Delivered (env : Env) (id : String) (payload : WebhookPayload) (fetch : ℕ → Response)
    (st : Store) (d : Outcome Error (Option WebhookDelivery) × Run) : Type 0 where
  pub failures : ℕ
  pub within : failures < 3
  pub failed : (k : ℕ) → k < failures → is_ok (fetch k) ≡ false
  pub result :
      ((is_ok (fetch failures) ≡ true) × ((row : Option WebhookDelivery) × (d.0 ≡ ok row)))
      ⊎ ((is_ok (fetch failures) ≡ false) × (failures ≡ 2) × (d.0 ≡ err delivery_failed))
  pub log : d.1.store.deliveries ≡ st.deliveries ++ rows_from env id payload fetch 0 (suc failures)
  pub waited : d.1.waits ≡ waits_from env 0 failures

from_zero : (fetch : ℕ → Response) (k : ℕ) → is_ok (fetch (0 + k)) ≡ is_ok (fetch k)
from_zero fetch k = let here : 0 + k ≡ k = omega arith in ap (λ n. is_ok (fetch n)) here

after_failures :
    (env : Env) (id : String) (payload : WebhookPayload) (fetch : ℕ → Response) (st : Store)
    (r : Run) (after : Store)
    → Attempted env id payload fetch 0 3 (record { last = none; waits = []; store = st }) (false, r)
    → after.deliveries ≡ r.store.deliveries
    → Delivered env id payload fetch st (err delivery_failed, record r { store = after })
after_failures env id payload fetch st r after a same = record {
  failures = a.failures;
  within = a.within;
  failed = λ k h. sym (from_zero fetch k) ∙ a.failed k h;
  result = elim a.ends [
    | inl e ↦ absurd (ground (arith, e))
    | inr e ↦ inr (sym (from_zero fetch a.failures) ∙ sym a.result, omega (arith, e), refl)
  ];
  log = same ∙ a.log;
  waited = a.waited;
}

after_attempts-Delivered :
    (env : Env) (id : String) (sub : Option WebhookSubscription) (payload : WebhookPayload)
    (fetch : ℕ → Response) (st : Store) (out : Bool × Run)
    → Attempted env id payload fetch 0 3 (record { last = none; waits = []; store = st }) out
    → Delivered env id payload fetch st (after_attempts env sub out)
unfolding after_attempts
after_attempts-Delivered env id sub payload fetch st (true, r) a = record {
  failures = a.failures;
  within = a.within;
  failed = λ k h. sym (from_zero fetch k) ∙ a.failed k h;
  result = inl (sym (from_zero fetch a.failures) ∙ sym a.result, (r.last, refl));
  log = a.log;
  waited = a.waited;
}
after_attempts-Delivered env id none payload fetch st (false, r) a =
    after_failures env id payload fetch st r r.store a refl
after_attempts-Delivered env id (some s) payload fetch st (false, r) a =
    after_failures env id payload fetch st r (count_failure env s r.store) a
      (count_failure_deliveries env s r.store)

-- Where the database takes each row, a delivery has up to two failed attempts and then a last one:
-- the first that is answered well, or else the third. It succeeds just when the last one does. Its
-- log is a row for each attempt, in order, and it has waited after each failed attempt but the last,
-- twice as long each time.
pub deliver-Delivered :
    (env : Env) (endpoint : String) (payload : WebhookPayload) (secret : String)
    (id : Option String) (st : Store) (row_id : String)
    → ((k : ℕ) → env.saves_delivery k ≡ true)
    → id_for id (subscription_for env id endpoint st) ≡ some row_id
    → Delivered env row_id payload
        (env.fetch (request_of env endpoint payload secret))
        st
        (deliver env endpoint payload secret id st)
unfolding deliver
deliver-Delivered env endpoint payload secret id st row_id saves named =
    let sub = subscription_for env id endpoint st in
    let fetch = env.fetch (request_of env endpoint payload secret) in
    let start : Run = record { last = none; waits = []; store = st } in
    subst
      (λ o.
        Delivered env row_id payload fetch st
          (after_attempts env sub (attempts env fetch o sub payload 3 0 start)))
      (sym named)
      (after_attempts-Delivered env row_id sub payload fetch st
        (attempts env fetch (some row_id) sub payload 3 0 start)
        (attempts-Attempted env fetch row_id sub payload saves 2 0 start refl))
