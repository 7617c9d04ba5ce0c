-- ===== src/Indexer/Cursors/Progress.antt =====
-- The cursor of one contract in IndexerService.ts.
use audio_block_backend.Base.{
  ℕ, ◌+◌, ◌≡◌, refl, sym, ◌∙◌, inl, inr, true, false, Option, none, some, List, arith, String,
  eq_iff, Option-cases, find_row, find_row_fits, find_row-save_row, find_row-save_row_other,
  str_eq_refl,
}
use audio_block_backend.Indexer.Cursors.{
  IndexerCursor, is_cursor, new_cursor, get_cursor, save_cursor, record_progress, record_error,
}

is_cursor_apart :
    (c n c' n' : String)
    → ((c ≡ c') × (n ≡ n') → ⊥)
    → (x : IndexerCursor) → is_cursor c n x ≡ true
    → is_cursor c' n' x ≡ false
is_cursor_apart c n c' n' apart x h = ground (
  arith,
  eq_iff c x.contract_id,
  eq_iff n x.network,
  eq_iff c' x.contract_id,
  eq_iff n' x.network,
)

is_cursor_self : (x : IndexerCursor) → is_cursor x.contract_id x.network x ≡ true
is_cursor_self x = rw (str_eq_refl x.contract_id, str_eq_refl x.network)

-- The cursor that a contract has: the stored one, or a fresh one.
pub current : String → String → List IndexerCursor → IndexerCursor
current c n rows = (get_cursor c n rows).0

get_cursor-key :
    (c n : String) (rows : List IndexerCursor) → is_cursor c n (get_cursor c n rows).0 ≡ true
unfolding get_cursor new_cursor
get_cursor-key c n rows = elim (Option-cases (find_row (is_cursor c n) rows)) [
  | inl e ↦ rw (e, get_cursor) (rw (str_eq_refl c, str_eq_refl n))
  | inr (x, e) ↦ rw (e, get_cursor) (find_row_fits (is_cursor c n) rows x e)
]

get_cursor-other :
    (c n c' n' : String) (rows : List IndexerCursor)
    → ((c ≡ c') × (n ≡ n') → ⊥)
    → find_row (is_cursor c' n') (get_cursor c n rows).1 ≡ find_row (is_cursor c' n') rows
unfolding get_cursor new_cursor
get_cursor-other c n c' n' rows apart = elim (Option-cases (find_row (is_cursor c n) rows)) [
  | inl e ↦
      rw (e, get_cursor)
        (find_row-save_row_other (is_cursor c n) (is_cursor c' n') (new_cursor c n) rows
          (is_cursor_apart c n c' n' apart)
          (is_cursor_apart c n c' n' apart (new_cursor c n) (is_cursor_self (new_cursor c n))))
  | inr (x, e) ↦ rw (e, get_cursor) refl
]

save_cursor_key :
    (c n : String) (y : IndexerCursor)
    → is_cursor c n y ≡ true
    → is_cursor y.contract_id y.network ≡ is_cursor c n
save_cursor_key c n y h =
    let same_c : c ≡ y.contract_id = ground (arith, eq_iff c y.contract_id, eq_iff n y.network) in
    let same_n : n ≡ y.network = ground (arith, eq_iff c y.contract_id, eq_iff n y.network) in
    λ i. is_cursor (sym same_c i) (sym same_n i)

current-save_cursor :
    (c n : String) (y : IndexerCursor) (rows : List IndexerCursor)
    → is_cursor c n y ≡ true
    → current c n (save_cursor y rows) ≡ y
unfolding current get_cursor save_cursor
current-save_cursor c n y rows h =
    rw (save_cursor_key c n y h)
      (rw (find_row-save_row (is_cursor c n) y rows h, current, get_cursor))

find_row-save_cursor_other :
    (c n c' n' : String) (y : IndexerCursor) (rows : List IndexerCursor)
    → ((c ≡ c') × (n ≡ n') → ⊥)
    → is_cursor c n y ≡ true
    → find_row (is_cursor c' n') (save_cursor y rows) ≡ find_row (is_cursor c' n') rows
unfolding save_cursor
find_row-save_cursor_other c n c' n' y rows apart h = rw (save_cursor_key c n y h) (
    find_row-save_row_other (is_cursor c n) (is_cursor c' n') y rows
      (is_cursor_apart c n c' n' apart) (is_cursor_apart c n c' n' apart y h))

-- After progress is recorded, the contract's cursor stands at the given ledger, has counted the
-- events on top of those before, has the given event id or else the one it had, and keeps its
-- record of errors; this holds whether the cursor was stored before or not.
pub current-record_progress :
    (c n : String) (ledger count : ℕ) (event_id : Option String) (rows : List IndexerCursor)
    → let x = current c n rows in
      current c n (record_progress c n ledger count event_id rows) ≡ record x {
        last_processed_ledger = ledger;
        last_processed_event_id = (elim event_id [
          | none ↦ x.last_processed_event_id
          | some e ↦ some e
        ]);
        events_processed = x.events_processed + count;
      }
unfolding record_progress current
current-record_progress c n ledger count event_id rows =
    current-save_cursor c n _ (get_cursor c n rows).1 (get_cursor-key c n rows)

-- An error is counted and kept with its time, and the position of the cursor stays.
pub current-record_error :
    (c n message : String) (now : ℕ) (rows : List IndexerCursor)
    → let x = current c n rows in
      current c n (record_error c n message now rows) ≡ record x {
        error_count = x.error_count + 1;
        last_error = some message;
        last_error_at = some now;
      }
unfolding record_error current
current-record_error c n message now rows =
    current-save_cursor c n _ (get_cursor c n rows).1 (get_cursor-key c n rows)

-- Progress and errors of one contract leave the cursor of any other contract or network as it is.
pub record-other :
    (c n c' n' message : String) (ledger count now : ℕ) (event_id : Option String)
    (rows : List IndexerCursor)
    → ((c ≡ c') × (n ≡ n') → ⊥)
    → (find_row (is_cursor c' n') (record_progress c n ledger count event_id rows)
        ≡ find_row (is_cursor c' n') rows)
      × (find_row (is_cursor c' n') (record_error c n message now rows)
          ≡ find_row (is_cursor c' n') rows)
unfolding record_progress record_error
record-other c n c' n' message ledger count now event_id rows apart = (
  find_row-save_cursor_other c n c' n' _ (get_cursor c n rows).1 apart (get_cursor-key c n rows)
      ∙ get_cursor-other c n c' n' rows apart,
  find_row-save_cursor_other c n c' n' _ (get_cursor c n rows).1 apart (get_cursor-key c n rows)
      ∙ get_cursor-other c n c' n' rows apart,
)
