-- ===== src/Indexer/Cursors/Backfill.antt =====
-- The life of one backfill in IndexerService.ts.
use audio_block_backend.Base.{
  ℕ, ◌≡◌, refl, sym, ap, ◌∙◌, inl, inr, true, Option, none, some, List, [], ◌∷◌, arith, String,
  eq_iff, if◌then◌else◌, Bool-cases, Option-cases, find_row_fits, find_row-save_row, str_eq_refl,
  or_else,
}
use mathlib.Core.Option
use audio_block_backend.Indexer.Cursors.{
  BackfillStatus, is_backfill, get_backfill_status, is_backfill_completed, save_backfill, started,
  start_backfill, change_backfill, update_backfill_progress, complete_backfill, fail_backfill,
}

-- The calls that change one backfill's record.
pub data Call : Type 0 where
  starts : ℕ → ℕ → Call
  imports : ℕ → Call
  completes : Call
  fails : String → Call

-- A call that throws changes nothing.
pub after : String → String → Call → List BackfillStatus → List BackfillStatus
after c n (starts from to) rows = or_else (start_backfill c n from to rows) rows
after c n (imports k) rows = update_backfill_progress c n k rows
after c n completes rows = complete_backfill c n rows
after c n (fails m) rows = fail_backfill c n m rows

pub run : String → String → List Call → List BackfillStatus → List BackfillStatus
run c n [] rows = rows
run c n (x ∷ xs) rows = run c n xs (after c n x rows)

save_backfill_key :
    (c n : String) (y : BackfillStatus)
    → is_backfill c n y ≡ true
    → is_backfill y.contract_id y.network ≡ is_backfill c n
save_backfill_key c n y h =
    let same_c : c ≡ y.contract_id = ground (arith, eq_iff c y.contract_id, eq_iff n y.network) in
    let same_n : n ≡ y.network = ground (arith, eq_iff c y.contract_id, eq_iff n y.network) in
    λ i. is_backfill (sym same_c i) (sym same_n i)

status-save :
    (c n : String) (y : BackfillStatus) (rows : List BackfillStatus)
    → is_backfill c n y ≡ true
    → get_backfill_status c n (save_backfill y rows) ≡ some y
unfolding get_backfill_status save_backfill
status-save c n y rows h =
    rw (save_backfill_key c n y h, find_row-save_row (is_backfill c n) y rows h)

-- A change of fields other than the key acts on the stored record, if there is one.
status-change :
    (c n : String) (f : BackfillStatus → BackfillStatus) (rows : List BackfillStatus)
    → ((y : BackfillStatus) → is_backfill c n (f y) ≡ is_backfill c n y)
    → get_backfill_status c n (change_backfill c n f rows)
      ≡ Option.map f (get_backfill_status c n rows)
unfolding change_backfill
status-change c n f rows keeps = elim (Option-cases (get_backfill_status c n rows)) [
  | inl e ↦ rw (e, change_backfill) e
  | inr (y, e) ↦
      rw (e, change_backfill)
        (status-save c n (f y) rows
          (keeps y ∙ unfold get_backfill_status in find_row_fits (is_backfill c n) rows y e))
]

-- The life of one record by itself.
pub next_status : String → String → Call → Option BackfillStatus → Option BackfillStatus
next_status c n (starts from to) none = some (started c n from to)
next_status c n (starts from to) (some b) =
    if b.completed then some b else some (started c n from to)
next_status c n (imports k) o =
    Option.map (λ (b : BackfillStatus). record b { events_imported = k }) o
next_status c n completes o = Option.map (λ (b : BackfillStatus). record b { completed = true }) o
next_status c n (fails m) o =
    Option.map (λ (b : BackfillStatus). record b { error_message = some m }) o

pub last_status : String → String → List Call → Option BackfillStatus → Option BackfillStatus
last_status c n [] o = o
last_status c n (x ∷ xs) o = last_status c n xs (next_status c n x o)

starts-next :
    (c n : String) (from to : ℕ) (rows : List BackfillStatus)
    → get_backfill_status c n (or_else (start_backfill c n from to rows) rows)
      ≡ next_status c n (starts from to) (get_backfill_status c n rows)
unfolding start_backfill next_status
starts-next c n from to rows = elim (Option-cases (get_backfill_status c n rows)) [
  | inl e ↦
      rw (e, is_backfill_completed, start_backfill)
        (status-save c n (started c n from to) rows (rw (str_eq_refl c, str_eq_refl n)))
  | inr (y, e) ↦ elim (Bool-cases y.completed) [
    | inl h ↦ rw (e, is_backfill_completed, start_backfill) (simp h e)
    | inr h ↦
        rw (e, is_backfill_completed, start_backfill)
          (rw h (status-save c n (started c n from to) rows (rw (str_eq_refl c, str_eq_refl n))))
  ]
]

after-next :
    (c n : String) (x : Call) (rows : List BackfillStatus)
    → get_backfill_status c n (after c n x rows) ≡ next_status c n x (get_backfill_status c n rows)
unfolding after next_status update_backfill_progress complete_backfill fail_backfill
after-next c n (starts from to) rows = starts-next c n from to rows
after-next c n (imports k) rows = status-change c n _ rows (λ y. refl)
after-next c n completes rows = status-change c n _ rows (λ y. refl)
after-next c n (fails m) rows = status-change c n _ rows (λ y. refl)

-- Over any sequence of calls the stored record lives as the record alone does: it is reset by a
-- start, refused a start once completed, and changed by the other calls only if it is there.
pub run-last_status :
    (c n : String) (xs : List Call) (rows : List BackfillStatus)
    → get_backfill_status c n (run c n xs rows) ≡ last_status c n xs (get_backfill_status c n rows)
unfolding run last_status
run-last_status c n [] rows = refl
run-last_status c n (x ∷ xs) rows =
    run-last_status c n xs (after c n x rows) ∙ ap (last_status c n xs) (after-next c n x rows)

-- The ledgers of a completed run stay what they were.
abbrev pub IsDone : Option ℕ → Option ℕ → Option BackfillStatus → Type 0
IsDone from to none = ⊥
IsDone from to (some b) = (b.completed ≡ true) × (b.start_ledger ≡ from) × (b.end_ledger ≡ to)

next_status-IsDone :
    (c n : String) (from to : Option ℕ) (x : Call) (o : Option BackfillStatus)
    → IsDone from to o
    → IsDone from to (next_status c n x o)
unfolding next_status
next_status-IsDone c n from to x none d = absurd d
next_status-IsDone c n from to (starts f t) (some b) d = ground arith
next_status-IsDone c n from to (imports k) (some b) d = d
next_status-IsDone c n from to completes (some b) d = (refl, d.1, d.2)
next_status-IsDone c n from to (fails m) (some b) d = d

last_status-IsDone :
    (c n : String) (from to : Option ℕ) (xs : List Call) (o : Option BackfillStatus)
    → IsDone from to o
    → IsDone from to (last_status c n xs o)
unfolding last_status
last_status-IsDone c n from to [] o d = d
last_status-IsDone c n from to (x ∷ xs) o d =
    last_status-IsDone c n from to xs _ (next_status-IsDone c n from to x o d)

-- A completed backfill stays completed over the range that it had, whatever is called afterwards.
pub completed_forever :
    (c n : String) (from to : Option ℕ) (xs : List Call) (rows : List BackfillStatus)
    → IsDone from to (get_backfill_status c n rows)
    → IsDone from to (get_backfill_status c n (run c n xs rows))
completed_forever c n from to xs rows d =
    rw (run-last_status c n xs rows) (last_status-IsDone c n from to xs _ d)
