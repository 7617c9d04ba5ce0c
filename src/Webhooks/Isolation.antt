-- ===== src/Webhooks/Isolation.antt =====
-- src/services/WebhookService.ts: an event reaches the subscriptions that it matches, and no others.
use audio_block_backend.Webhooks.{
  WebhookPayload, WebhookSubscription, WebhookDelivery, Store, Response, Env, is_id, Run,
  attempt_row, record_attempt, save_subscription, reset_failures, count_failure, after_attempts,
  subscription_for, id_for, deliver,
}
use audio_block_backend.Webhooks.Attempts.{request_of}
use audio_block_backend.Webhooks.Health.{attempts_keep}
use audio_block_backend.Webhooks.Publish.{
  EventData, payload_of, lists, types_match, is_matched, deliver_all, publish,
}
use audio_block_backend.Base.{
  ℕ, ◌+◌, ◌≤◌, ◌≡◌, refl, sym, ap, ◌∙◌, subst, ◌⊎◌, inl, inr, Bool, true, false, ◌&&◌, Option, none,
  some, List, [], ◌∷◌, ◌++◌, append-nil, arith, String, eq_iff, ltb, leb, Bool-cases, Option-cases,
  some_unique, find_row, select_rows, count_rows, find_row_fits, find_row-save_row_other,
  select_rows-append, find_row-uncounted, str_eq,
}

abbrev pub is_for : String → WebhookDelivery → Bool
is_for x d = str_eq x d.subscription_id

-- The subscription and the log of its deliveries are what they were.
pub record Silent (x : String) (st st' : Store) : Type 0 where
  pub row : find_row (is_id x) st'.subscriptions ≡ find_row (is_id x) st.subscriptions
  pub log : select_rows (is_for x) st'.deliveries ≡ select_rows (is_for x) st.deliveries

Silent-refl : (x : String) (st : Store) → Silent x st st
Silent-refl x st = record { row = refl; log = refl }

Silent-trans : (x : String) {a b c : Store} → Silent x a b → Silent x b c → Silent x a c
Silent-trans x v w = record { row = w.row ∙ v.row; log = w.log ∙ v.log }

apart : (x y z : String) → str_eq x y ≡ false → str_eq y z ≡ true → str_eq x z ≡ false
apart x y z h e = ground (arith, h, e, eq_iff x y, eq_iff y z, eq_iff x z)

save_subscription-Silent :
    (x : String) (env : Env) (s : WebhookSubscription) (st : Store)
    → str_eq x s.id ≡ false
    → Silent x st (save_subscription env s st)
unfolding save_subscription
save_subscription-Silent x env s st h = elim (Bool-cases env.saves_subscription) [
  | inr e ↦ rw e (Silent-refl x st)
  | inl e ↦ rw e (record {
    row =
        find_row-save_row_other (is_id s.id) (is_id x) s st.subscriptions (λ y. apart x s.id y.id h)
          h;
    log = refl;
  })
]

-- The subscription of a delivery, where there is one, is not the other one.
IsOther : String → Option WebhookSubscription → Type 0
IsOther x none = Unit
IsOther x (some s) = str_eq x s.id ≡ false

reset_failures-Silent :
    (x : String) (env : Env) (sub : Option WebhookSubscription) (st : Store)
    → IsOther x sub
    → Silent x st (reset_failures env sub st)
unfolding reset_failures IsOther
reset_failures-Silent x env none st h = Silent-refl x st
reset_failures-Silent x env (some s) st h = elim (Bool-cases (ltb 0 s.consecutive_failures)) [
  | inr e ↦ rw e (Silent-refl x st)
  | inl e ↦ rw e (save_subscription-Silent x env (record s { consecutive_failures = 0 }) st h)
]

count_failure-Silent :
    (x : String) (env : Env) (s : WebhookSubscription) (st : Store)
    → str_eq x s.id ≡ false
    → Silent x st (count_failure env s st)
unfolding count_failure
count_failure-Silent x env s st h =
    elim (Bool-cases (leb env.max_failures (s.consecutive_failures + 1) && s.is_active)) [
      | inr e ↦ rw e (
          save_subscription-Silent x env
            (record s { consecutive_failures = s.consecutive_failures + 1 }) st h)
      | inl e ↦ elim (Bool-cases env.notifies) [
        | inr f ↦ rw (e, f) (Silent-refl x st)
        | inl f ↦
            rw (e, f)
              (let v =
                  save_subscription-Silent x env
                    (record s {
                      consecutive_failures = s.consecutive_failures + 1;
                      is_active = false;
                    })
                    (record st {
                      notifications =
                          st.notifications
                          ++ record {
                            user_id = s.user_id;
                            subscription_id = s.id;
                            failures = s.consecutive_failures + 1;
                          }
                            ∷ [];
                    })
                    h in
                record { row = v.row; log = v.log })
      ]
    ]

record_attempt-Silent :
    (x : String) (env : Env) (id : String) (payload : WebhookPayload) (a : ℕ) (y : Response)
    (r : Run)
    → str_eq x id ≡ false
    → Silent x r.store (record_attempt env (some id) payload a y r).store
unfolding record_attempt attempt_row select_rows
record_attempt-Silent x env id payload a y r h = elim (Bool-cases (env.saves_delivery a)) [
  | inr e ↦ rw e (Silent-refl x r.store)
  | inl e ↦ rw e (record {
    row = refl;
    log = select_rows-append (is_for x) r.store.deliveries _ ∙ rw h (append-nil _);
  })
]

after_attempts-Silent :
    (x : String) (env : Env) (sub : Option WebhookSubscription) (st : Store) (out : Bool × Run)
    → IsOther x sub
    → Silent x st out.1.store
    → Silent x st (after_attempts env sub out).1.store
unfolding after_attempts IsOther
after_attempts-Silent x env sub st (true, r) h v = v
after_attempts-Silent x env none st (false, r) h v = v
after_attempts-Silent x env (some s) st (false, r) h v =
    Silent-trans x v (count_failure-Silent x env s r.store h)

subscription_for-IsOther :
    (x : String) (env : Env) (id endpoint : String) (st : Store)
    → str_eq id "" ≡ false
    → str_eq x id ≡ false
    → IsOther x (subscription_for env (some id) endpoint st)
unfolding subscription_for IsOther
subscription_for-IsOther x env id endpoint st named h = elim (Bool-cases env.reads_subscription) [
  | inr e ↦ rw (e, IsOther) tt
  | inl e ↦ elim (Option-cases (find_row (is_id id) st.subscriptions)) [
    | inl f ↦ rw (e, named, f, IsOther) tt
    | inr (s, f) ↦
        rw (e, named, f, IsOther)
          (apart x id s.id h (find_row_fits (is_id id) st.subscriptions s f))
  ]
]

id_for_given :
    (id : String) (sub : Option WebhookSubscription)
    → str_eq id "" ≡ false
    → id_for (some id) sub ≡ some id
id_for_given id sub h = rw (h, id_for) refl

deliver-Silent :
    (x : String) (env : Env) (endpoint : String) (payload : WebhookPayload) (secret id : String)
    (st : Store)
    → str_eq id "" ≡ false
    → str_eq x id ≡ false
    → Silent x st (deliver env endpoint payload secret (some id) st).1.store
unfolding deliver
deliver-Silent x env endpoint payload secret id st named h =
    let sub = subscription_for env (some id) endpoint st in
    let fetch = env.fetch (request_of env endpoint payload secret) in
    let there : id_for (some id) sub ≡ some id = id_for_given id sub named in
    let other = subscription_for-IsOther x env id endpoint st named h in
    after_attempts-Silent x env sub st _ other (
      attempts_keep (Silent x st) env fetch (id_for (some id) sub) sub payload
        (λ a r v. Silent-trans x v (
          subst (λ o. Silent x r.store (record_attempt env o payload a (fetch a) r).store)
            (sym there) (record_attempt-Silent x env id payload a (fetch a) r h)))
        (λ st' v. Silent-trans x v (reset_failures-Silent x env sub st' other)) 3 0
        (record { last = none; waits = []; store = st }) (Silent-refl x st))

-- Subscriptions with an id, and that of none is the other one.
abbrev Apart : String → List WebhookSubscription → Type 0
Apart x [] = Unit
Apart x (s ∷ subs) = (str_eq s.id "" ≡ false) × (str_eq x s.id ≡ false) × Apart x subs

deliver_all-Silent :
    (x : String) (envs : WebhookSubscription → Env) (payload : WebhookPayload)
    (subs : List WebhookSubscription) (st : Store)
    → Apart x subs
    → Silent x st (deliver_all envs payload subs st)
unfolding deliver_all
deliver_all-Silent x envs payload [] st v = Silent-refl x st
deliver_all-Silent x envs payload (s ∷ subs) st (named, h, v) =
    Silent-trans x (deliver-Silent x (envs s) s.endpoint payload s.secret s.id st named h)
      (deliver_all-Silent x envs payload subs _ v)

tail_unmatched :
    (x event : String) (s : WebhookSubscription) (rows : List WebhookSubscription)
    → count_rows (is_id x) (s ∷ rows) ≤ 1
    → ((t : WebhookSubscription)
        → find_row (is_id x) (s ∷ rows) ≡ some t
        → is_matched event t ≡ false)
    → (t : WebhookSubscription) → find_row (is_id x) rows ≡ some t
    → is_matched event t ≡ false
unfolding count_rows find_row
tail_unmatched x event s rows once none_of t e = elim (Bool-cases (str_eq x s.id)) [
  | inl g ↦
      let zero : count_rows (is_id x) rows ≡ 0 = ground (arith, once, g) in
      absurd (
        ground (
          arith,
          find_row-uncounted (is_id x) (is_id x) rows zero e,
          find_row_fits (is_id x) rows t e,
        ))
  | inr g ↦ none_of t (rw g e)
]

head_apart :
    (x event : String) (s : WebhookSubscription) (rows : List WebhookSubscription)
    → ((t : WebhookSubscription)
        → find_row (is_id x) (s ∷ rows) ≡ some t
        → is_matched event t ≡ false)
    → is_matched event s ≡ true
    → str_eq x s.id ≡ false
unfolding find_row
head_apart x event s rows none_of e = elim (Bool-cases (str_eq x s.id)) [
  | inr g ↦ g
  | inl g ↦ absurd (ground (arith, e, none_of s (rw g refl)))
]

matched-Apart :
    (x event : String) (rows : List WebhookSubscription)
    → count_rows (is_id "") rows ≡ 0
    → count_rows (is_id x) rows ≤ 1
    → ((s : WebhookSubscription) → find_row (is_id x) rows ≡ some s → is_matched event s ≡ false)
    → Apart x (select_rows (is_matched event) rows)
unfolding count_rows select_rows
matched-Apart x event [] named once none_of = tt
matched-Apart x event (s ∷ rows) named once none_of =
    let rest =
      matched-Apart x event rows (ground (arith, named)) (ground (arith, once))
        (tail_unmatched x event s rows once none_of) in
    elim (Bool-cases (is_matched event s)) [
      | inr e ↦ rw e rest
      | inl e ↦ rw e (
        ground (arith, named, eq_iff "" s.id, eq_iff s.id ""),
        head_apart x event s rows none_of e,
        rest,
      )
    ]

-- One of the types is the event's, or the one for all.
pub data Listed (event : String) : List String → Type 0 where
  here : {t : String} {types : List String} → (t ≡ event) ⊎ (t ≡ "*") → Listed event (t ∷ types)
  later : {t : String} {types : List String} → Listed event types → Listed event (t ∷ types)

-- The subscription is active, and names no types or one that covers the event.
pub data Wants (event : String) (s : WebhookSubscription) : Type 0 where
  all_events : s.is_active ≡ true → s.event_types ≡ none → Wants event s
  no_types : s.is_active ≡ true → s.event_types ≡ some [] → Wants event s
  by_type :
      (types : List String)
      → s.is_active ≡ true
      → s.event_types ≡ some types
      → Listed event types
      → Wants event s

lists-Listed :
    (event : String) (types : List String) → lists event types ≡ true → Listed event types
unfolding lists
lists-Listed event [] h = cc
lists-Listed event (t ∷ types) h = elim (Bool-cases (str_eq event t)) [
  | inl e ↦ here (inl (sym ((eq_iff event t).0 e)))
  | inr e ↦ elim (Bool-cases (str_eq "*" t)) [
    | inl f ↦ here (inr (sym ((eq_iff "*" t).0 f)))
    | inr f ↦ later (lists-Listed event types (ground (arith, h, e, f)))
  ]
]

types_match-Wants :
    (event : String) (s : WebhookSubscription) (o : Option (List String))
    → s.event_types ≡ o
    → s.is_active ≡ true
    → types_match event o ≡ true
    → Wants event s
unfolding types_match
types_match-Wants event s none e on h = all_events on e
types_match-Wants event s (some []) e on h = no_types on e
types_match-Wants event s (some (t ∷ types)) e on h =
    by_type (t ∷ types) on e (lists-Listed event (t ∷ types) h)

unwanted : (event : String) (s : WebhookSubscription) → ¬ Wants event s → is_matched event s ≡ false
unwanted event s h = elim (Bool-cases (is_matched event s)) [
  | inl e ↦
      absurd
        (h (types_match-Wants event s s.event_types refl (ground (arith, e)) (ground (arith, e))))
  | inr e ↦ e
]

-- A subscription that does not want an event, since it is inactive or has types of which none is the
-- event's or the one for all, is left alone by a publication of the event, and no delivery is logged
-- for it. It is assumed that its id is the only one of its kind, and that no id is empty.
pub publish-Silent :
    (queries : Bool) (envs : WebhookSubscription → Env) (id event : String) (given : EventData)
    (x : String) (st : Store) (s : WebhookSubscription)
    → count_rows (is_id "") st.subscriptions ≡ 0
    → count_rows (is_id x) st.subscriptions ≤ 1
    → find_row (is_id x) st.subscriptions ≡ some s
    → ¬ Wants event s
    → Silent x st (publish queries envs id event given st)
unfolding publish
publish-Silent false envs id event given x st s named once found h = Silent-refl x st
publish-Silent true envs id event given x st s named once found h =
    deliver_all-Silent x envs (payload_of id event given)
      (select_rows (is_matched event) st.subscriptions) st
      (matched-Apart x event st.subscriptions named once
        (λ t e. ap (is_matched event) (some_unique _ e found) ∙ unwanted event s h))
