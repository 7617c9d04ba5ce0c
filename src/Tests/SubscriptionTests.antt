-- ===== src/Tests/SubscriptionTests.antt =====
-- src/services/SubscriptionService.ts: one user, a trial and a cancellation.
use audio_block_backend.Pages.{newest_first}
use audio_block_backend.Subscriptions.{
  saved_row, current, is_over, free, artist_pro, label, active, Subscription, Store, Env, ratio,
  default_billing_period_ms, start_trial, is_in_trial, cancel_subscription, has_tier_access,
  get_user_subscription, newest_active, save, insert, rank, is_id,
}
use audio_block_backend.Subscriptions.Entitled.{Entitled, has_tier_access-Entitled}
use audio_block_backend.Subscriptions.Sound.{Sound}
use audio_block_backend.Subscriptions.Runs.{
  Request, gets, upgrades, tries, cancels, after_all, after_all-Sound,
}
use audio_block_backend.Subscriptions.Cancel.{cancel_subscription-free}
use audio_block_backend.Subscriptions.Trial.{start_trial-Trial}
use audio_block_backend.Base.{
  ℕ, ◌+◌, ◌≡◌, refl, ◌↔◌, Bool, true, false, none, some, List, [], ◌∷◌, arith, ltb, leb,
  if◌then◌else◌, find_row, save_row, count_rows, ok,
}

abbrev at : ℕ → Env
at now = record { now = now; row_id = "a"; skips_undefined = true }

abbrev paid : Subscription
paid = record {
  id = "p";
  user_id = "u";
  tier = artist_pro;
  status = active;
  start_date = 0;
  end_date = some 500;
  trial_ends_at = none;
}

abbrev paying : Store
paying = paid ∷ []

paying-Sound : Sound paying
unfolding count_rows
paying-Sound = record { ids_once = λ id. ground arith; active_once = λ user. ground arith }

has_tier_access-Entitled_example :
    (b : Bool) × ((has_tier_access (at 100) "u" label paying).0 ≡ ok b)
    × ((b ≡ true) ↔ Entitled 100 "u" label paying)
has_tier_access-Entitled_example =
    has_tier_access-Entitled (at 100) "u" label paying paying-Sound refl

-- A day of trial of the label tier, an upgrade and a cancellation.
abbrev calls : List (Env × Request)
calls =
    (at 10, tries "u" "label" (ratio 1 0))
    ∷ (at 20, upgrades "u" "artist_pro" (some 900))
    ∷ (at 30, cancels "u")
    ∷ (at 40, gets "u")
    ∷ []

after_all-Sound_example : Sound (after_all calls paying)
after_all-Sound_example = after_all-Sound calls paying paying-Sound

cancel_subscription-free_example :
    (has_tier_access (at 200) "u" artist_pro (cancel_subscription (at 100) "u" paying).1).0
    ≡ ok (leb (rank artist_pro) (rank free))
unfolding cancel_subscription get_user_subscription newest_active find_row newest_first
cancel_subscription-free_example =
    cancel_subscription-free (at 100) "u" paying paying-Sound refl (at 200) artist_pro

abbrev tried : Store
tried = (start_trial (at 10) "u" "label" (ratio 1 0) []).1

start_trial-Trial_example :
    ((is_in_trial (at 50) "u" tried).0 ≡ ok (ltb 50 86400010))
    × ((has_tier_access (at 50) "u" artist_pro tried).0 ≡ ok (leb (rank artist_pro) (rank label)))
    × ((has_tier_access (at 50) "u" artist_pro (get_user_subscription (at 86400020) "u" tried).1).0
        ≡ ok (
            leb
              (rank artist_pro)
              (rank (if ltb (86400010 + default_billing_period_ms) 50 then free else label))))
unfolding start_trial get_user_subscription newest_active find_row newest_first insert
start_trial-Trial_example =
    start_trial-Trial (at 10) "u" "label" (ratio 1 0) [] refl (at 86400020) (at 50) artist_pro
      (omega arith)

-- A first look long after the billed period still finds the tier.
late_look : (has_tier_access (at 99999999999) "u" label tried).0 ≡ ok true
unfolding start_trial has_tier_access get_user_subscription newest_active find_row newest_first
    insert current is_over
late_look = refl

late_second_look :
    (has_tier_access
      (at 99999999999)
      "u"
      label
      (get_user_subscription (at 99999999999) "u" tried).1).0
    ≡ ok false
unfolding start_trial has_tier_access get_user_subscription newest_active find_row newest_first
    insert current is_over save_row save saved_row
late_second_look = refl

-- The mark of the trial stays in the row that a look has billed.
mark_stays :
    (find_row (is_id "a") (get_user_subscription (at 86400020) "u" tried).1)
    ≡ some (record {
      id = "a";
      user_id = "u";
      tier = label;
      status = active;
      start_date = 10;
      end_date = some 2678400010;
      trial_ends_at = some 86400010;
    })
unfolding start_trial get_user_subscription newest_active find_row newest_first insert current
    is_over save_row save saved_row
mark_stays = refl
