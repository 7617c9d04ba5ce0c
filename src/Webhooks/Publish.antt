-- ===== src/Webhooks/Publish.antt =====
-- src/services/WebhookService.ts: the subscriptions of a user, the log of their deliveries, and the
-- publishing of events to the subscriptions that match.
use audio_block_backend.Pages.{Page, page_of, newest_first}
use audio_block_backend.Webhooks.{
  WebhookPayload, WebhookSubscription, WebhookDelivery, Store, Env, Error, invalid_endpoint,
  subscription_not_found, forbidden, delivery_not_found, no_payload, is_id, deliver,
}
use audio_block_backend.Base.{
  ℕ, ◌+◌, ◌*◌, Bool, true, false, not, ◌&&◌, ◌||◌, Option, none, some, List, [], ◌∷◌, ◌++◌, String,
  ltb, if◌then◌else◌, Outcome, refuse, ◌>>=◌, ◌>>◌, find_row, select_rows, delete_rows, count_rows,
  str_eq, or_text, or_else, ok, err,
}

-- The scheme is what the platform's URL parser finds, if the text is a URL.
unfoldable pub register_subscription :
    (String → Option String)
    → String
    → String
    → String
    → String
    → Option (List String)
    → Option String
    → Store
    → Outcome Error (WebhookSubscription × Store)
register_subscription scheme_of id random user endpoint types provided st =
    elim (scheme_of endpoint) [
      | none ↦ err invalid_endpoint
      | some scheme ↦ do
        refuse (not (str_eq scheme "http:" || str_eq scheme "https:")) invalid_endpoint
        let sub : WebhookSubscription = record {
          id = id;
          user_id = user;
          endpoint = endpoint;
          secret = or_text provided random;
          event_types = elim types [
            | none ↦ some ("*" ∷ [])
            | some [] ↦ some ("*" ∷ [])
            | some (t ∷ rest) ↦ some (t ∷ rest)
          ];
          is_active = true;
          consecutive_failures = 0;
        }
        ok (sub, record st { subscriptions = st.subscriptions ++ sub ∷ [] })
    ]

unfoldable pub list_subscriptions : String → Store → List WebhookSubscription
unfolding newest_first
list_subscriptions user st =
    newest_first (select_rows (λ (s : WebhookSubscription). str_eq user s.user_id) st.subscriptions)

-- The foreign key deletes the deliveries with the subscription.
unfoldable pub delete_subscription : String → String → Store → Outcome Error Store
delete_subscription user id st =
    elim (find_row (λ (s : WebhookSubscription). str_eq id s.id && str_eq user s.user_id)
      st.subscriptions) [
        | none ↦ err subscription_not_found
        | some s ↦ ok (record st {
          subscriptions = delete_rows (is_id id) st.subscriptions;
          deliveries =
              delete_rows (λ (d : WebhookDelivery). str_eq id d.subscription_id) st.deliveries;
        })
      ]

-- The subscription, where the user owns it.
unfoldable pub owned_subscription : String → String → Store → Outcome Error WebhookSubscription
owned_subscription id user st = elim (find_row (is_id id) st.subscriptions) [
  | none ↦ err subscription_not_found
  | some s ↦ do refuse (not (str_eq s.user_id user)) forbidden; ok s
]

unfoldable pub list_deliveries :
    String → String → ℕ → ℕ → Store → Outcome Error (Page WebhookDelivery)
unfolding owned_subscription page_of newest_first
list_deliveries id user page limit st = do
  _ ← owned_subscription id user st
  ok (
      page_of page limit (
        newest_first
          (select_rows (λ (d : WebhookDelivery). str_eq id d.subscription_id) st.deliveries)))

-- A refusal changes nothing; a delivery may.
unfoldable pub redeliver :
    Env → String → String → String → Store → Outcome Error (Option WebhookDelivery) × Store
unfolding owned_subscription deliver
redeliver env id delivery_id user st = elim (owned_subscription id user st) [
  | err e ↦ (err e, st)
  | ok s ↦
      elim (find_row
        (λ (d : WebhookDelivery). str_eq delivery_id d.id && str_eq id d.subscription_id)
        st.deliveries) [
          | none ↦ (err delivery_not_found, st)
          | some d ↦ elim d.payload [
            | none ↦ (err no_payload, st)
            | some payload ↦
                let r = deliver env s.endpoint payload s.secret (some s.id) st in (r.0, r.1.store)
          ]
        ]
]

abbrev pub day_ms : ℕ
day_ms = 86400000

-- A row is older than the cutoff.
abbrev pub is_old : ℕ → ℕ → WebhookDelivery → Bool
is_old now days d = ltb (d.created_at + days * day_ms) now

unfoldable pub cleanup_old_deliveries : ℕ → ℕ → Store → ℕ × Store
cleanup_old_deliveries now days st = (
  count_rows (is_old now days) st.deliveries,
  record st { deliveries = delete_rows (is_old now days) st.deliveries },
)

unfoldable pub lists : String → List String → Bool
lists event [] = false
lists event (t ∷ rest) = str_eq event t || str_eq "*" t || lists event rest

unfoldable pub types_match : String → Option (List String) → Bool
unfolding lists
types_match event none = true
types_match event (some []) = true
types_match event (some (t ∷ rest)) = lists event (t ∷ rest)

abbrev pub is_matched : String → WebhookSubscription → Bool
is_matched event s = s.is_active && types_match event s.event_types

-- The subscriptions in turn, each in a world of its own; a failed delivery is caught.
unfoldable pub deliver_all :
    (WebhookSubscription → Env) → WebhookPayload → List WebhookSubscription → Store → Store
unfolding deliver
deliver_all envs payload [] st = st
deliver_all envs payload (s ∷ rest) st =
    deliver_all envs payload rest
      (deliver (envs s) s.endpoint payload s.secret (some s.id) st).1.store

-- What a caller publishes. Its own id and type of the event, where it has them, take the place of
-- those that `publish` gives.
pub record EventData : Type 0 where
  pub event_id : Option String
  pub event_type : Option String
  pub details : String

abbrev pub payload_of : String → String → EventData → WebhookPayload
payload_of event_id event_type given = record {
  event_id = or_else given.event_id event_id;
  event_type = or_else given.event_type event_type;
  details = given.details;
}

-- A query that fails publishes nothing. The subscriptions match the type that is given.
unfoldable pub publish :
    Bool → (WebhookSubscription → Env) → String → String → EventData → Store → Store
unfolding deliver_all
publish queries envs event_id event_type given st =
    if queries
    then deliver_all envs (payload_of event_id event_type given)
        (select_rows (is_matched event_type) st.subscriptions) st
    else st

-- The ids of the two events are random.
unfoldable pub emit_sale_completed :
    Bool → (WebhookSubscription → Env) → String → String → EventData → Store → Store
unfolding publish
emit_sale_completed queries envs first_id second_id given st =
    publish queries envs second_id "sale_completed" given
      (publish queries envs first_id "sale.completed" given st)

-- The details hold the song's id.
unfoldable pub emit_mint_status_changed :
    Bool → (WebhookSubscription → Env) → String → String → EventData → Store → Store
unfolding publish
emit_mint_status_changed queries envs first_id second_id given st =
    publish queries envs second_id "mint_status_changed" given
      (publish queries envs first_id "song.minted" given st)
