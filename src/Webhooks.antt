-- ===== src/Webhooks.antt =====
-- src/services/WebhookService.ts over the tables of src/entities/WebhookSubscription.ts and
-- src/entities/WebhookDelivery.ts. What the endpoint answers to an attempt, whether the database
-- takes a row, whether a notification is created, random ids, secrets and the signature are given by
-- an environment; the durations and the log are left out. Deliveries that the source starts together
-- run one after the other.
pub mod Publish
pub mod Attempts
pub mod Isolation
pub mod Streak
pub mod Health
use audio_block_backend.Base.{
  ℕ, zero, suc, ◌+◌, ◌-◌, ◌*◌, ◌/◌, ◌%◌, ◌^◌, ◌≤◌, ◌<◌, min, max, compare, Ordering, ◌≡◌, refl, sym,
  ap, ◌∙◌, subst, fun_ext, ◌≢◌, ◌↔◌, ◌⊎◌, inl, inr, Bool, true, false, not, ◌&&◌, ◌||◌, Option,
  none, some, List, [], ◌∷◌, ◌++◌, map, append-nil, append_assoc, arith, String, eq_iff, ltb, leb,
  ◌==◌, if◌then◌else◌, ltb→lt, lt→ltb, leb→le, ==_iff, tests, Bool-cases, Option-cases, List-cases,
  or-false_right, some_unique, Outcome, ◌>>=◌, ◌>>◌, refuse, >>=-ok_inv, Ensures, >>=-Ensures,
  refuse-Ensures, Ensures-ok, Ensures-weaken, find_row, save_row, select_rows, delete_rows,
  count_rows, find_row_fits, find_row-save_row, find_row-save_row_other, find_row-delete_rows,
  find_row-delete_rows_other, find_row-append, find_row-append_some, count_rows-append,
  count_option, count_rows-save_row, select_rows-append, select_rows-delete_rows_other,
  select_rows-map_other, find_row-map, count_rows-map, count_rows-delete_rows, count_rows-none,
  delete_rows-append, find_row-append_other, find_row-uncounted, str_eq, str_eq_refl, ◌+s◌,
  non_empty, or_text, or_else, decimal, join_with, length, get_elem?, set, length-append,
  length-set, get_elem?-set_self, get_elem?-set_ne, get_or, take, drop, replicate, take-append-drop,
  length-take, length-drop, length-replicate, length-map, take-eq_self, trim, ok, err, gives,
  throws,
}

pub record WebhookPayload : Type 0 where
  pub event_id : String
  pub event_type : String
  pub details : String

pub record WebhookSubscription : Type 0 where
  pub id : String
  pub user_id : String
  pub endpoint : String
  pub secret : String
  pub event_types : Option (List String)
  pub is_active : Bool
  pub consecutive_failures : ℕ

pub data WebhookDeliveryStatus : Type 0 where
  succeeded failed : WebhookDeliveryStatus

pub record WebhookDelivery : Type 0 where
  pub id : String
  pub subscription_id : String
  pub event_id : String
  pub event_type : String
  pub attempt : ℕ
  pub status : WebhookDeliveryStatus
  pub response_status : Option ℕ
  pub error : Option String
  pub payload : Option WebhookPayload
  pub created_at : ℕ

pub record Notification : Type 0 where
  pub user_id : String
  pub subscription_id : String
  pub failures : ℕ

pub record Store : Type 0 where
  pub subscriptions : List WebhookSubscription
  pub deliveries : List WebhookDelivery
  pub notifications : List Notification

-- What a request gives: a status with its text, or a rejection with its message.
pub data Response : Type 0 where
  answered : ℕ → String → Response
  rejected : String → Response

pub record Request : Type 0 where
  pub endpoint : String
  pub signature : String
  pub payload : WebhookPayload

-- The world of one delivery; its attempts are counted from 0.
pub record Env : Type 0 where
  pub sign_payload : WebhookPayload → String → String
  pub fetch : Request → ℕ → Response
  pub row_id : ℕ → String
  pub random_id : ℕ → String
  pub now : ℕ
  pub reads_subscription : Bool
  pub saves_delivery : ℕ → Bool
  pub saves_subscription : Bool
  pub notifies : Bool
  pub base_ms : ℕ
  pub max_failures : ℕ

pub data Error : Type 0 where
  invalid_endpoint subscription_not_found forbidden delivery_not_found no_payload : Error
  delivery_failed : Error

-- `verifySignature`: both signatures are the same; a length that differs counts as different.
unfoldable pub verify_signature : Env → WebhookPayload → String → String → Bool
verify_signature env payload signature secret = str_eq (env.sign_payload payload secret) signature

abbrev pub is_ok : Response → Bool
is_ok (answered status text) = leb 200 status && ltb status 300
is_ok (rejected message) = false

abbrev pub status_of : Response → Option ℕ
status_of (answered status text) = some status
status_of (rejected message) = none

unfoldable pub error_of : Response → String
unfolding decimal
error_of (answered status text) = "HTTP " +s decimal status +s ": " +s text
error_of (rejected message) = message

abbrev pub is_id : String → WebhookSubscription → Bool
is_id id s = str_eq id s.id

-- An empty id is no id.
abbrev pub given_id : Option String → Option String
given_id none = none
given_id (some s) = non_empty s

-- The subscription of a delivery, by its id or else by the endpoint; a failed read is no row.
unfoldable pub subscription_for : Env → Option String → String → Store → Option WebhookSubscription
subscription_for env id endpoint st =
    if env.reads_subscription
    then (elim (given_id id) [
      | some s ↦ find_row (is_id s) st.subscriptions
      | none ↦ find_row (λ (s : WebhookSubscription). str_eq endpoint s.endpoint) st.subscriptions
    ])
    else none

abbrev pub id_of : Option WebhookSubscription → Option String
id_of none = none
id_of (some s) = some s.id

abbrev pub id_for : Option String → Option WebhookSubscription → Option String
id_for id sub = elim (given_id id) [ some s ↦ some s | none ↦ id_of sub ]

unfoldable pub attempt_row : Env → String → WebhookPayload → ℕ → Response → WebhookDelivery
unfolding error_of
attempt_row env id payload attempt response = record {
  id = env.row_id attempt;
  subscription_id = id;
  event_id = or_text (some payload.event_id) (env.random_id attempt);
  event_type = or_text (some payload.event_type) "unknown";
  attempt = attempt + 1;
  status = if is_ok response then succeeded else failed;
  response_status = status_of response;
  error = if is_ok response then none else some (error_of response);
  payload = some payload;
  created_at = env.now;
}

-- The last row that was recorded, the waits, and the tables.
pub record Run : Type 0 where
  pub last : Option WebhookDelivery
  pub waits : List ℕ
  pub store : Store

unfoldable pub record_attempt : Env → Option String → WebhookPayload → ℕ → Response → Run → Run
unfolding attempt_row
record_attempt env none payload attempt response r = r
record_attempt env (some id) payload attempt response r =
    if env.saves_delivery attempt
    then (let row = attempt_row env id payload attempt response in
        record r {
          last = some row;
          store = record r.store { deliveries = r.store.deliveries ++ row ∷ [] };
        })
    else r

unfoldable pub save_subscription : Env → WebhookSubscription → Store → Store
save_subscription env s st =
    if env.saves_subscription
    then record st { subscriptions = save_row (is_id s.id) s st.subscriptions }
    else st

unfoldable pub reset_failures : Env → Option WebhookSubscription → Store → Store
unfolding save_subscription
reset_failures env none st = st
reset_failures env (some s) st =
    if ltb 0 s.consecutive_failures
    then save_subscription env (record s { consecutive_failures = 0 }) st
    else st

abbrev pub max_retries : ℕ
max_retries = 3

unfoldable pub wait_after : Env → ℕ → Run → Run
wait_after env attempt r =
    if ltb attempt (max_retries - 1)
    then record r { waits = r.waits ++ (2 ^ attempt * env.base_ms) ∷ [] }
    else r

-- The attempts that are left, from one on; whether one was answered well.
unfoldable pub attempts :
    Env
    → (ℕ → Response)
    → Option String
    → Option WebhookSubscription
    → WebhookPayload
    → ℕ
    → ℕ
    → Run
    → Bool × Run
unfolding record_attempt reset_failures wait_after
attempts env fetch id sub payload zero attempt r = (false, r)
attempts env fetch id sub payload (suc left) attempt r =
    let r' = record_attempt env id payload attempt (fetch attempt) r in
    elim (is_ok (fetch attempt)) [
      | true ↦ (true, record r' { store = reset_failures env sub r'.store })
      | false ↦ attempts env fetch id sub payload left (suc attempt) (wait_after env attempt r')
    ]

-- After the last attempt. Where the notification fails, the subscription is not saved either.
unfoldable pub count_failure : Env → WebhookSubscription → Store → Store
unfolding save_subscription
count_failure env s st =
    let failures = s.consecutive_failures + 1 in
    if leb env.max_failures failures && s.is_active
    then (if env.notifies
        then save_subscription env (record s { consecutive_failures = failures; is_active = false })
            (record st {
              notifications =
                  st.notifications
                  ++ record { user_id = s.user_id; subscription_id = s.id; failures = failures }
                    ∷ [];
            })
        else st)
    else save_subscription env (record s { consecutive_failures = failures }) st

unfoldable pub after_attempts :
    Env → Option WebhookSubscription → Bool × Run → Outcome Error (Option WebhookDelivery) × Run
unfolding count_failure
after_attempts env sub (true, r) = (ok r.last, r)
after_attempts env none (false, r) = (err delivery_failed, r)
after_attempts env (some s) (false, r) =
    (err delivery_failed, record r { store = count_failure env s r.store })

unfoldable pub deliver :
    Env
    → String
    → WebhookPayload
    → String
    → Option String
    → Store
    → Outcome Error (Option WebhookDelivery) × Run
unfolding subscription_for attempts after_attempts
deliver env endpoint payload secret id st =
    let sub = subscription_for env id endpoint st in
    let request : Request = record {
      endpoint = endpoint;
      signature = env.sign_payload payload secret;
      payload = payload;
    } in
    after_attempts env sub (
      attempts env (env.fetch request) (id_for id sub) sub payload max_retries 0
        (record { last = none; waits = []; store = st }))
