-- ===== src/Royalty.antt =====
-- src/services/RoyaltyPayoutService.ts over the table of src/entities/RoyaltyPayout.ts. Amounts are
-- the decimal texts of big integers. A collaborator's share is given in basis points, as
-- `Math.round(royaltyShare * 100)` gives them; the notification and the metrics are left out.
pub mod Splits
pub mod Reconciled
use audio_block_backend.Base.{
  ℕ, ◌*◌, ◌/◌, Bool, true, not, Option, none, some, List, [], ◌∷◌, ◌++◌, map, String, ◌==◌,
  if◌then◌else◌, find_row, select_rows, count_rows, str_eq, ◌+s◌, non_empty, or_text, or_else,
  join_with,
}

pub data RoyaltyPayoutStatus : Type 0 where
  pending reconciled discrepancy : RoyaltyPayoutStatus

pub record RoyaltySplit : Type 0 where
  pub recipient_public_key : String
  pub share_bps : ℕ
  pub expected_amount : String
  pub actual_amount : Option String

pub record RoyaltyPayout : Type 0 where
  pub sale_event_id : String
  pub currency : String
  pub gross_amount : String
  pub expected_splits : List RoyaltySplit
  pub status : RoyaltyPayoutStatus
  pub on_chain_event_id : Option String
  pub discrepancy_reason : Option String
  pub reconciled_at : Option ℕ

pub record RoyaltyPayoutEvent : Type 0 where
  pub sale_event_id : String
  pub on_chain_event_id : String
  pub recipient_public_key : String
  pub amount_stroops : String

-- An active collaborator of the song, with `Math.round(c.royaltyShare * 100)`: what the source
-- computes of the floating-point share and alone uses.
pub record Collaborator : Type 0 where
  pub user_id : String
  pub share_bps : ℕ

pub record User : Type 0 where
  pub id : String
  pub stellar_public_key : Option String

-- `gross * shareBps / 10000n`
unfoldable pub amount_of : ℕ → ℕ → ℕ
amount_of gross bps = (gross * bps) / 10000

unfoldable pub key_of : List User → Collaborator → Option String
key_of users c = elim (find_row (λ (u : User). str_eq c.user_id u.id) users) [
  | none ↦ none
  | some u ↦ non_empty (or_else u.stellar_public_key "")
]

-- `text` prints a big integer.
unfoldable pub split_of : (ℕ → String) → ℕ → String → ℕ → RoyaltySplit
unfolding amount_of
split_of text gross key bps = record {
  recipient_public_key = key;
  share_bps = bps;
  expected_amount = text (amount_of gross bps);
  actual_amount = none;
}

unfoldable pub build_splits : (ℕ → String) → ℕ → List User → List Collaborator → List RoyaltySplit
unfolding key_of split_of
build_splits text gross users [] = []
build_splits text gross users (c ∷ cs) =
    let rest = build_splits text gross users cs in
    elim (key_of users c) [ none ↦ rest | some key ↦ split_of text gross key c.share_bps ∷ rest ]

abbrev pub is_of_sale : String → RoyaltyPayoutEvent → Bool
is_of_sale sale e = str_eq e.sale_event_id sale

-- The map of the recipients: the last event of a recipient counts.
unfoldable pub actual_of : String → List RoyaltyPayoutEvent → Option String
actual_of key [] = none
actual_of key (e ∷ events) =
    let rest = actual_of key events in
    elim rest [
      | some amount ↦ some amount
      | none ↦ if str_eq e.recipient_public_key key then some e.amount_stroops else none
    ]

unfoldable pub with_actual : List RoyaltyPayoutEvent → RoyaltySplit → RoyaltySplit
unfolding actual_of
with_actual events s = record s { actual_amount = actual_of s.recipient_public_key events }

unfoldable pub mismatched : RoyaltySplit → Bool
mismatched s = elim s.actual_amount [
  | none ↦ true
  | some amount ↦ not (str_eq amount s.expected_amount)
]

abbrev pub reason_of : RoyaltySplit → String
reason_of s =
    s.recipient_public_key
    +s " expected "
    +s s.expected_amount
    +s ", actual "
    +s or_text s.actual_amount "missing"

unfoldable pub settle_payout :
    ℕ → Option String → List RoyaltySplit → List RoyaltySplit → RoyaltyPayout → RoyaltyPayout
settle_payout now event_id results [] p = record p {
  expected_splits = results;
  status = reconciled;
  on_chain_event_id = event_id;
  discrepancy_reason = none;
  reconciled_at = some now;
}
settle_payout now event_id results (s ∷ bad) p = record p {
  expected_splits = results;
  status = discrepancy;
  on_chain_event_id = event_id;
  discrepancy_reason = some (join_with "; " (map reason_of (s ∷ bad)));
  reconciled_at = some now;
}

unfoldable pub first_event_id : List RoyaltyPayoutEvent → Option String
first_event_id [] = none
first_event_id (e ∷ events) = some e.on_chain_event_id

unfoldable pub reconcile_payout : ℕ → List RoyaltyPayoutEvent → RoyaltyPayout → RoyaltyPayout
unfolding with_actual mismatched settle_payout first_event_id
reconcile_payout now events p =
    let of_sale = select_rows (is_of_sale p.sale_event_id) events in
    let results = map (with_actual of_sale) p.expected_splits in
    settle_payout now (first_event_id of_sale) results (select_rows mismatched results) p

-- The payouts that some event names are reconciled, and the others left alone.
unfoldable pub reconcile_events :
    ℕ → List RoyaltyPayoutEvent → List RoyaltyPayout → List RoyaltyPayout
unfolding reconcile_payout
reconcile_events now events [] = []
reconcile_events now events (p ∷ payouts) =
    let rest = reconcile_events now events payouts in
    if count_rows (is_of_sale p.sale_event_id) events == 0
    then p ∷ rest
    else reconcile_payout now events p ∷ rest

unfoldable pub new_payout : String → Option String → String → List RoyaltySplit → RoyaltyPayout
new_payout sale_event_id currency gross_amount splits = record {
  sale_event_id = sale_event_id;
  currency = or_text currency "stroops";
  gross_amount = gross_amount;
  expected_splits = splits;
  status = pending;
  on_chain_event_id = none;
  discrepancy_reason = none;
  reconciled_at = none;
}

unfoldable pub record_expected_payout : RoyaltyPayout → List RoyaltyPayout → List RoyaltyPayout
record_expected_payout payout payouts = payouts ++ payout ∷ []
