-- ===== src/Tests/ProjectorTests.antt =====
-- services/EventProjector.ts with the projection of event counts, over three settled rows, in batches
-- of two.
use audio_block_backend.Base.{
  ℕ, suc, ◌+◌, ◌≡◌, refl, sym, ap, ◌∙◌, subst, true, false, none, some, List, [], ◌∷◌, ◌++◌,
  append-nil, arith, select_rows, length,
}
use audio_block_backend.Indexer.Events.{IndexedEvent}
use audio_block_backend.Projector.{
  new_checkpoint, Stored, catch_up_one, rebuild_one, is_settled, last_seq, ProjectionRunResult,
}
use audio_block_backend.Projector.Rows.{AscendingFrom, settled}
use audio_block_backend.Projector.Replay.{
  Applied, seen, SettlesInOrder, Ran, catch_up_one-Ran, rebuild_one-Ran, rebuild_agrees,
}
use audio_block_backend.Projector.Counts.{
  Key, CountTable, count_projection, apply_counts, apply_counts-occurrences, occurrences,
  reset_counts,
}

abbrev row : ℕ → ℕ → IndexedEvent
row seq at = record {
  ingest_seq = seq;
  network = "testnet";
  contract_id = some "C1";
  contract_type = some "nft";
  event_type = "mint";
  event_id = "e";
  address = none;
  tx_hash = none;
  ledger = some 7;
  payload = "{}";
  indexed_at = at;
}

abbrev rows : List IndexedEvent
rows = row 1 10 ∷ row 2 20 ∷ row 3 30 ∷ []

abbrev clock : ℕ → ℕ
clock i = 100

abbrev view : ℕ → List IndexedEvent
view i = rows

abbrev empty_table : CountTable
empty_table = λ k. 0

abbrev fresh : Stored count_projection 2 50
fresh = record { model = empty_table; checkpoint = new_checkpoint }

all_settled : (i : ℕ) → seen count_projection 2 50 clock view i ≡ rows
unfolding seen settled is_settled select_rows
all_settled i = refl

in_order : SettlesInOrder count_projection 2 50 clock view 3
in_order = record {
  ascending = λ i.
      subst (AscendingFrom 0) (sym (all_settled i)) (omega arith, (omega arith, (omega arith, tt)));
  grows = λ i.
      ([], all_settled (suc i) ∙ sym (append-nil rows) ∙ ap (λ l. l ++ []) (sym (all_settled i)));
  bounded = λ i. omega (arith, ap length (all_settled i));
}

fresh-Applied : Applied count_projection 2 50 empty_table [] fresh
unfolding last_seq
fresh-Applied = record {
  model = sym (count_projection.apply-nil empty_table);
  seq = refl;
  count = refl;
}

catch_up_one-Ran_example :
    Ran count_projection 2 50 clock view empty_table 0 false
      (catch_up_one count_projection 2 50 clock view 4 fresh)
catch_up_one-Ran_example =
    catch_up_one-Ran count_projection 2 50 clock view empty_table 4 [] rows fresh in_order
      (omega arith) fresh-Applied (all_settled 0) (omega arith)

rebuild_one-Ran_example :
    Ran count_projection 2 50 clock view
      (count_projection.reset empty_table)
      0
      true
      (rebuild_one count_projection 2 50 clock view 4 fresh)
rebuild_one-Ran_example =
    rebuild_one-Ran count_projection 2 50 clock view 4 fresh in_order (omega arith) (omega arith)

-- What catching up leaves.
abbrev caught_up : Stored count_projection 2 50
caught_up = record {
  model = apply_counts rows empty_table;
  checkpoint = record { last_ingest_seq = 3; events_applied = 3; last_rebuilt_at = none };
}

caught_up-Applied :
    Applied count_projection 2 50
      (count_projection.reset empty_table)
      (seen count_projection 2 50 clock view 0)
      caught_up
unfolding last_seq reset_counts
caught_up-Applied = rw (all_settled 0) (record { model = refl; seq = refl; count = refl })

rebuild_agrees_example :
    (r : ProjectionRunResult) × (t : Stored count_projection 2 50) × (rebuild_one count_projection 2
        50 clock view 4 caught_up
      ≡ some (r, t))
    × (t.model ≡ apply_counts rows empty_table)
    × (t.checkpoint.last_ingest_seq ≡ 3)
    × (t.checkpoint.events_applied ≡ 3)
rebuild_agrees_example =
    rebuild_agrees count_projection 2 50 clock view 4 empty_table caught_up in_order
      (λ i. all_settled i ∙ sym (all_settled 0)) (omega arith) (omega arith) caught_up-Applied

apply_counts-occurrences_example :
    let k : Key = record { network = "testnet"; contract_type = "nft"; event_type = "mint" } in
    apply_counts rows empty_table k ≡ empty_table k + occurrences k rows
apply_counts-occurrences_example = apply_counts-occurrences _ rows empty_table
