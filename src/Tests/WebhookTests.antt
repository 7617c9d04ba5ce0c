-- ===== src/Tests/WebhookTests.antt =====
-- src/services/WebhookService.ts: one subscription, an endpoint that answers and one that is down.
use audio_block_backend.Webhooks.{
  WebhookPayload, WebhookSubscription, Store, Response, answered, rejected, Env, failed, is_id,
  deliver,
}
use audio_block_backend.Webhooks.Attempts.{Delivered, request_of, deliver-Delivered}
use audio_block_backend.Webhooks.Health.{redeliver_cases}
use audio_block_backend.Webhooks.Streak.{
  Failing, Outage, deliver_times, after_failures, Outage-disables, unnotified_stays,
}
use audio_block_backend.Webhooks.Isolation.{
  Silent, Wants, Listed, all_events, no_types, by_type, here, later, publish-Silent,
}
use audio_block_backend.Webhooks.Publish.{EventData, publish, redeliver}
use audio_block_backend.Base.{
  ℕ, zero, suc, ◌≤◌, ◌≡◌, refl, sym, subst, ◌⊎◌, inl, inr, Bool, true, false, Option, none, some,
  [], ◌∷◌, arith, String, eq_iff, some_unique, find_row, count_rows, ◌+s◌, decimal,
}

abbrev hook : WebhookSubscription
hook = record {
  id = "s";
  user_id = "u";
  endpoint = "https://a";
  secret = "k";
  event_types = some ("sale.completed" ∷ []);
  is_active = true;
  consecutive_failures = 0;
}

abbrev sale : WebhookPayload
sale = record { event_id = "e"; event_type = "sale.completed"; details = "{}" }

abbrev plain : EventData
plain = record { event_id = none; event_type = none; details = "{}" }

abbrev hooked : Store
hooked = record { subscriptions = hook ∷ []; deliveries = []; notifications = [] }

abbrev world : (ℕ → Response) → Bool → Env
world fetch notifies = record {
  sign_payload = λ payload secret. secret;
  fetch = λ request attempt. fetch attempt;
  row_id = λ attempt. "d" +s decimal attempt;
  random_id = λ attempt. "r";
  now = 7;
  reads_subscription = true;
  saves_delivery = λ attempt. true;
  saves_subscription = true;
  notifies = notifies;
  base_ms = 1000;
  max_failures = 5;
}

abbrev down : ℕ → Response
down attempt = rejected "timeout"

-- The second attempt is answered.
abbrev late : ℕ → Response
late zero = answered 503 "busy"
late (suc attempt) = answered 200 "OK"

late_test : (deliver (world late true) "https://a" sale "k" (some "s") hooked).1.waits ≡ 1000 ∷ []
unfolding deliver find_row decimal
late_test = refl

deliver-Delivered_example :
    Delivered
      (world late true)
      "s"
      sale
      ((world late true).fetch (request_of (world late true) "https://a" sale "k"))
      hooked
      (deliver (world late true) "https://a" sale "k" (some "s") hooked)
deliver-Delivered_example =
    deliver-Delivered (world late true) "https://a" sale "k" (some "s") hooked "s" (λ k. refl) refl

abbrev empty : Store
empty = record { subscriptions = []; deliveries = []; notifications = [] }

abbrev http_only : String → Option String
http_only url = some "https:"

down_fails : Failing (world down true) "https://a" sale "k"
down_fails = record { fails = λ k. refl; reads = refl }

outage : Outage (λ n. world down true) "https://a" (λ n. sale) "k" 5
outage = record {
  failing = λ n. down_fails;
  saves = λ n. refl;
  notifies = λ n. refl;
  limits = λ n. refl;
}

found_hook : find_row (is_id "s") hooked.subscriptions ≡ some hook
unfolding find_row
found_hook = refl

Outage-disables_example :
    find_row
      (is_id "s")
      (deliver_times (λ n. world down true) "https://a" (λ n. sale) "k" "s" 5 hooked).subscriptions
    ≡ some (after_failures 5 5 hook)
Outage-disables_example =
    Outage-disables 5 (λ n. world down true) "https://a" (λ n. sale) "k" hook hooked 5 (omega arith)
      outage refl refl refl found_hook

abbrev worn : WebhookSubscription
worn = record hook { consecutive_failures = 4 }

abbrev worn_store : Store
worn_store = record hooked { subscriptions = worn ∷ [] }

silent_fails : Failing (world down false) "https://a" sale "k"
silent_fails = record { fails = λ k. refl; reads = refl }

found_worn : find_row (is_id "s") worn_store.subscriptions ≡ some worn
unfolding find_row
found_worn = refl

unnotified_stays_example :
    (deliver (world down false) "https://a" sale "k" (some "s") worn_store).1.store.subscriptions
    ≡ worn ∷ []
unnotified_stays_example =
    unnotified_stays (world down false) "https://a" sale "k" worn worn_store silent_fails refl refl
      found_worn refl (omega arith)

none_unnamed : count_rows (is_id "") hooked.subscriptions ≡ 0
unfolding count_rows
none_unnamed = refl

hook_once : count_rows (is_id "s") hooked.subscriptions ≤ 1
unfolding count_rows
hook_once = omega arith

not-Listed : ¬ Listed "song.minted" ("sale.completed" ∷ [])
not-Listed (here (inl e)) = absurd (cc ((eq_iff "sale.completed" "song.minted").1 e))
not-Listed (here (inr e)) = absurd (cc ((eq_iff "sale.completed" "*").1 e))
not-Listed (later w) = elim w [ ]

not_for_mints : ¬ Wants "song.minted" hook
not_for_mints (all_events on e) = cc
not_for_mints (no_types on e) = cc
not_for_mints (by_type types on e w) =
    not-Listed (subst (Listed "song.minted") (sym (some_unique _ refl e)) w)

publish-Silent_example :
    Silent "s" hooked (publish true (λ s. world down true) "e" "song.minted" plain hooked)
publish-Silent_example =
    publish-Silent true (λ s. world down true) "e" "song.minted" plain "s" hooked hook none_unnamed
      hook_once found_hook not_for_mints

abbrev logged : Store
logged = record hooked {
  deliveries =
      record {
        id = "d0";
        subscription_id = "s";
        event_id = "e";
        event_type = "sale.completed";
        attempt = 1;
        status = failed;
        response_status = none;
        error = some "timeout";
        payload = some sale;
        created_at = 3;
      }
      ∷ [];
}

redeliver_cases_test :
    ((redeliver (world late true) "s" "d0" "u" logged).1 ≡ logged)
    ⊎ ((s : WebhookSubscription) × (payload : WebhookPayload) × (find_row
            (is_id "s")
            logged.subscriptions
          ≡ some s)
        × (s.user_id ≡ "u")
        × ((redeliver (world late true) "s" "d0" "u" logged).1
            ≡ (deliver (world late true) s.endpoint payload s.secret (some s.id) logged).1.store))
redeliver_cases_test = redeliver_cases (world late true) "s" "d0" "u" logged
