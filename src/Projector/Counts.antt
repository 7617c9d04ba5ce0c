-- ===== src/Projector/Counts.antt =====
-- src/services/projections/OnChainEventCountProjection.ts. The table `onchain_event_counts` is a
-- function from its primary key to the count, 0 for a key without a row. The source joins the parts
-- of a key by NUL, which no text of the database holds, so that keys are compared by their parts.
use audio_block_backend.Base.{
  ℕ, ◌+◌, ◌≡◌, refl, ap, fun_ext, ◌↔◌, inl, inr, Bool, true, ◌&&◌, List, [], ◌∷◌, ◌++◌, arith,
  String, eq_iff, if◌then◌else◌, Bool-cases, count_rows, count_rows-append, str_eq, or_text,
}
use audio_block_backend.Indexer.Events.{IndexedEvent}
use audio_block_backend.Projector.{EventProjection}

pub record Key : Type 0 where
  pub network : String
  pub contract_type : String
  pub event_type : String

pub record CountRow : Type 0 where
  pub key : Key
  pub count : ℕ

abbrev pub CountTable : Type 0
CountTable = Key → ℕ

abbrev pub same_key : Key → Key → Bool
same_key a b =
    str_eq a.network b.network
    && str_eq a.contract_type b.contract_type
    && str_eq a.event_type b.event_type

unfoldable pub key_of : IndexedEvent → Key
key_of ev = record {
  network = ev.network;
  contract_type = or_text ev.contract_type "unknown";
  event_type = ev.event_type;
}

-- The map `totals` in the order in which its keys were set.
unfoldable pub add_total : Key → List CountRow → List CountRow
add_total k [] = record { key = k; count = 1 } ∷ []
add_total k (r ∷ totals) =
    if same_key r.key k then record r { count = r.count + 1 } ∷ totals else r ∷ add_total k totals

unfoldable pub totals : List IndexedEvent → List CountRow → List CountRow
unfolding add_total key_of
totals [] rows = rows
totals (ev ∷ events) rows = totals events (add_total (key_of ev) rows)

-- `INSERT … ON CONFLICT … DO UPDATE SET count = count + EXCLUDED.count`, for each row.
unfoldable pub upsert_counts : List CountRow → CountTable → CountTable
upsert_counts [] table = table
upsert_counts (r ∷ rows) table =
    upsert_counts rows (λ k. if same_key r.key k then table k + r.count else table k)

unfoldable pub apply_counts : List IndexedEvent → CountTable → CountTable
unfolding totals upsert_counts
apply_counts events table = upsert_counts (totals events []) table

unfoldable pub reset_counts : CountTable → CountTable
reset_counts table = λ k. 0

-- How many events have the key `k`.
pub occurrences : Key → List IndexedEvent → ℕ
occurrences k events = count_rows (λ ev. same_key (key_of ev) k) events

occurrences-append :
    (k : Key) (xs ys : List IndexedEvent)
    → occurrences k (xs ++ ys) ≡ occurrences k xs + occurrences k ys
unfolding occurrences
occurrences-append k xs ys = count_rows-append (λ ev. same_key (key_of ev) k) xs ys

same_key_iff : (a b : Key) → (same_key a b ≡ true) ↔ (a ≡ b)
same_key_iff a b = ground (
  arith,
  eq_iff a.network b.network,
  eq_iff a.contract_type b.contract_type,
  eq_iff a.event_type b.event_type,
)

-- What the rows of `totals` add to a key.
sum_at : Key → List CountRow → ℕ
sum_at k [] = 0
sum_at k (r ∷ rows) = (if same_key r.key k then r.count else 0) + sum_at k rows

sum_at-add_total :
    (k j : Key) (rows : List CountRow)
    → sum_at k (add_total j rows) ≡ (if same_key j k then 1 else 0) + sum_at k rows
unfolding sum_at add_total
sum_at-add_total k j [] = ground arith
sum_at-add_total k j (r ∷ rows) = elim (Bool-cases (same_key r.key j)) [
  | inl e ↦ let q = ap (λ x. same_key x k) ((same_key_iff r.key j).0 e) in rw e (ground (arith, q))
  | inr e ↦ rw e (omega (arith, sum_at-add_total k j rows))
]

sum_at-totals :
    (k : Key) (events : List IndexedEvent) (rows : List CountRow)
    → sum_at k (totals events rows) ≡ sum_at k rows + occurrences k events
unfolding totals occurrences count_rows
sum_at-totals k [] rows = omega arith
sum_at-totals k (ev ∷ events) rows = ground (
  arith,
  sum_at-totals k events (add_total (key_of ev) rows),
  sum_at-add_total k (key_of ev) rows,
)

upsert_counts-sum_at :
    (k : Key) (rows : List CountRow) (table : CountTable)
    → upsert_counts rows table k ≡ table k + sum_at k rows
unfolding upsert_counts sum_at
upsert_counts-sum_at k [] table = omega arith
upsert_counts-sum_at k (r ∷ rows) table = ground (
  arith,
  upsert_counts-sum_at k rows (λ j. if same_key r.key j then table j + r.count else table j),
)

-- Applying a batch adds to each key's count the number of events of the batch with that key.
pub apply_counts-occurrences :
    (k : Key) (events : List IndexedEvent) (table : CountTable)
    → apply_counts events table k ≡ table k + occurrences k events
unfolding apply_counts sum_at
apply_counts-occurrences k events table =
    omega (arith, upsert_counts-sum_at k (totals events []) table, sum_at-totals k events [])

pub apply_counts-append :
    (xs ys : List IndexedEvent) (table : CountTable)
    → apply_counts (xs ++ ys) table ≡ apply_counts ys (apply_counts xs table)
apply_counts-append xs ys table = fun_ext λ k. omega (
  arith,
  apply_counts-occurrences k (xs ++ ys) table,
  apply_counts-occurrences k ys (apply_counts xs table),
  apply_counts-occurrences k xs table,
  occurrences-append k xs ys,
)

pub apply_counts-nil : (table : CountTable) → apply_counts [] table ≡ table
unfolding apply_counts
apply_counts-nil table = refl

pub reset_counts-eq : (m n : CountTable) → reset_counts m ≡ reset_counts n
unfolding reset_counts
reset_counts-eq m n = refl

-- The projection as the projector takes it.
abbrev pub count_projection : EventProjection
count_projection = record {
  name = "onchain_event_counts";
  Model = CountTable;
  reset = reset_counts;
  apply = apply_counts;
  apply-append = apply_counts-append;
  apply-nil = apply_counts-nil;
  reset-eq = reset_counts-eq;
}
