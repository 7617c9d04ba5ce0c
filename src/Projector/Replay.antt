-- ===== src/Projector/Replay.antt =====
-- EventProjector.ts applies each raw event exactly once, and a rebuild gives what catching up gives.
use audio_block_backend.Base.{
  ℕ, zero, suc, ◌+◌, ◌≤◌, ◌<◌, ◌≡◌, refl, sym, ap, ◌∙◌, subst, inl, inr, Bool, true, false, Option,
  some, List, [], ◌∷◌, ◌++◌, append-nil, append_assoc, arith, ltb, ltb→lt, tests, Bool-cases,
  length, length-append, take, drop, take-append-drop, take-eq_self,
}
use audio_block_backend.Indexer.Events.{IndexedEvent}
use audio_block_backend.Projector.{
  EventProjection, Stored, next_events, last_seq, apply_events, apply_next_batch, apply_batches,
  run_result, catch_up_one, reset_stored, rebuild_one, ProjectionRunResult,
}
use audio_block_backend.Projector.Rows.{AscendingFrom, settled, last_seq-append, next_events-append}

module _ (p : EventProjection) (size settle : ℕ) where
  open p use {Model, apply}

  -- The read model and the checkpoint are those of the events `xs`, applied to `base`.
  pub record Applied (base : Model) (xs : List IndexedEvent) (s : Stored p size settle)
      : Type 0 where
    pub model : s.model ≡ apply xs base
    pub seq : s.checkpoint.last_ingest_seq ≡ last_seq 0 xs
    pub count : s.checkpoint.events_applied ≡ length xs

  apply_events-Applied :
      (base : Model) (xs ks : List IndexedEvent) (s : Stored p size settle)
      → Applied base xs s
      → ((apply_events p size settle ks s).0 ≡ length ks)
        × Applied base (xs ++ ks) (apply_events p size settle ks s).1
  unfolding apply_events
  apply_events-Applied base xs [] s a = (refl, rw append-nil a)
  apply_events-Applied base xs (k ∷ ks) s a = (
    refl,
    record {
      model = ap (apply (k ∷ ks)) a.model ∙ sym (p.apply-append xs (k ∷ ks) base);
      seq = ap (λ n. last_seq n (k ∷ ks)) a.seq ∙ sym (last_seq-append 0 xs (k ∷ ks));
      count = omega (arith, a.count, length-append xs (k ∷ ks));
    },
  )

  apply_next_batch-Applied :
      (base : Model) (now : ℕ) (rows xs ys : List IndexedEvent) (s : Stored p size settle)
      → Applied base xs s
      → settled settle now rows ≡ xs ++ ys
      → AscendingFrom 0 (xs ++ ys)
      → ((apply_next_batch p size settle now rows s).0 ≡ length (take size ys))
        × Applied base (xs ++ take size ys) (apply_next_batch p size settle now rows s).1
  unfolding apply_next_batch
  apply_next_batch-Applied base now rows xs ys s a e h =
      let batch : next_events size settle now s.checkpoint.last_ingest_seq rows ≡ take size ys =
        ap (λ l. next_events size settle now l rows) a.seq
        ∙ next_events-append size settle now rows xs ys e h in
      rw batch (apply_events-Applied base xs (take size ys) s a)

  module _ (clock : ℕ → ℕ) (view : ℕ → List IndexedEvent) where
    -- The events that have settled when the step `i` looks.
    unfoldable pub seen : ℕ → List IndexedEvent
    seen i = settled settle (clock i) (view i)

    -- Rows settle in the order of their sequence numbers, at most `bound` of them while it runs.
    pub record SettlesInOrder (bound : ℕ) : Type 0 where
      pub ascending : (i : ℕ) → AscendingFrom 0 (seen i)
      pub grows : (i : ℕ) → (zs : List IndexedEvent) × (seen (suc i) ≡ seen i ++ zs)
      pub bounded : (i : ℕ) → length (seen i) ≤ bound

    -- The loop has returned at the step `last`, having applied all that it sees there.
    pub record CaughtUp (base : Model) (before total : ℕ) (o : Option (ℕ × Stored p size settle))
        : Type 0 where
      pub last : ℕ
      pub applied : ℕ
      pub end : Stored p size settle
      pub returns : o ≡ some (applied, end)
      pub all : Applied base (seen last) end
      pub counted : applied + before ≡ total + length (seen last)

    apply_batches-CaughtUp :
        {bound : ℕ} (base : Model) (fuel i total : ℕ) (xs ys : List IndexedEvent)
        (s : Stored p size settle)
        → SettlesInOrder bound
        → 0 < size
        → Applied base xs s
        → seen i ≡ xs ++ ys
        → bound < fuel + length xs
        → CaughtUp base (length xs) total (apply_batches p size settle clock view fuel i total s)
    unfolding apply_batches seen
    apply_batches-CaughtUp base zero i total xs ys s v pos a e room =
        absurd (omega (arith, v.bounded i, ap length e, length-append xs ys))
    apply_batches-CaughtUp base (suc fuel) i total xs ys s v pos a e room =
        let (n, a') =
          apply_next_batch-Applied base (clock i) (view i) xs ys s a e
            (subst (AscendingFrom 0) e (v.ascending i)) in
        let (zs, more) = v.grows i in
        let left = take-append-drop size ys in
        let next : seen (suc i) ≡ (xs ++ take size ys) ++ (drop size ys ++ zs) =
          more
          ∙ ap (λ l. l ++ zs) (e ∙ ap (λ l. xs ++ l) (sym left) ∙ sym (append_assoc xs _ _))
          ∙ append_assoc (xs ++ take size ys) (drop size ys) zs in
        elim (Bool-cases (ltb (apply_next_batch p size settle (clock i) (view i) s).0 size)) [
          | inl short ↦
              let all : take size ys ≡ ys =
                take-eq_self size ys (omega (tests, n, ltb→lt _ size short)) in
              rw (short, apply_batches)
                (record {
                  last = i;
                  applied = total + (apply_next_batch p size settle (clock i) (view i) s).0;
                  end = (apply_next_batch p size settle (clock i) (view i) s).1;
                  returns = refl;
                  all =
                      subst
                        (λ l.
                          Applied base l (apply_next_batch p size settle (clock i) (view i) s).1)
                        (ap (λ l. xs ++ l) all ∙ sym e) a';
                  counted = omega (arith, n, ap length all, ap length e, length-append xs ys);
                })
          | inr full ↦
              let enough : size ≤ length (take size ys) = ground (arith, n) in
              let rest =
                apply_batches-CaughtUp base fuel (suc i)
                  (total + (apply_next_batch p size settle (clock i) (view i) s).0)
                  (xs ++ take size ys) (drop size ys ++ zs) _ v pos a' next
                  (omega (arith, enough, length-append xs (take size ys))) in
              rw (full, apply_batches)
                (record {
                  last = rest.last;
                  applied = rest.applied;
                  end = rest.end;
                  returns = rest.returns;
                  all = rest.all;
                  counted = omega (arith, rest.counted, n, length-append xs (take size ys));
                })
        ]

    -- A run has returned: the stored state is that of all events that it sees at its last step,
    -- applied once each and in order to `base`, and the result tells of it.
    pub record Ran (base : Model) (before : ℕ) (rebuilt : Bool)
        (o : Option (ProjectionRunResult × Stored p size settle)) : Type 0 where
      pub last : ℕ
      pub result : ProjectionRunResult
      pub end : Stored p size settle
      pub returns : o ≡ some (result, end)
      pub all : Applied base (seen last) end
      pub counted : result.events_applied + before ≡ length (seen last)
      pub told : result.last_ingest_seq ≡ last_seq 0 (seen last)
      pub kind : result.rebuilt ≡ rebuilt

    -- Catching up from a state in which the first settled events have been applied (or none, from
    -- the new checkpoint) ends with all of them applied, each exactly once and in order, however
    -- the batches fall and however many rows settle in between: if rows settle in the order of
    -- their sequence numbers, the batch size is positive and the fuel exceeds the number of rows.
    pub catch_up_one-Ran :
        {bound : ℕ} (base : Model) (fuel : ℕ) (xs ys : List IndexedEvent) (s : Stored p size settle)
        → SettlesInOrder bound
        → 0 < size
        → Applied base xs s
        → seen 0 ≡ xs ++ ys
        → bound < fuel
        → Ran base (length xs) false (catch_up_one p size settle clock view fuel s)
    unfolding catch_up_one
    catch_up_one-Ran base fuel xs ys s v pos a e room =
        let c = apply_batches-CaughtUp base fuel 0 0 xs ys s v pos a e (omega (arith, room)) in
        rw (c.returns, catch_up_one)
          (record {
            last = c.last;
            result = run_result p size settle false (c.applied, c.end);
            end = c.end;
            returns = refl;
            all = c.all;
            counted = unfold run_result in omega (arith, c.counted);
            told = unfold run_result in c.all.seq;
            kind = unfold run_result in refl;
          })

    reset_stored-Applied :
        (now : ℕ) (s : Stored p size settle)
        → Applied (p.reset s.model) [] (reset_stored p size settle now s)
    unfolding reset_stored last_seq
    reset_stored-Applied now s = record {
      model = sym (p.apply-nil (p.reset s.model));
      seq = refl;
      count = refl;
    }

    -- A rebuild, from whatever state, ends with the read model that the settled events give from
    -- an empty one, each applied exactly once and in order: if rows settle in the order of their
    -- sequence numbers, the batch size is positive and the fuel exceeds the number of rows.
    pub rebuild_one-Ran :
        {bound : ℕ} (fuel : ℕ) (s : Stored p size settle)
        → SettlesInOrder bound
        → 0 < size
        → bound < fuel
        → Ran (p.reset s.model) 0 true (rebuild_one p size settle clock view fuel s)
    unfolding rebuild_one
    rebuild_one-Ran fuel s v pos room =
        let c =
          apply_batches-CaughtUp (p.reset s.model) fuel 0 0 [] (seen 0)
            (reset_stored p size settle (clock 0) s) v pos (reset_stored-Applied (clock 0) s) refl
            (omega (arith, room)) in
        rw (c.returns, rebuild_one)
          (record {
            last = c.last;
            result = run_result p size settle true (c.applied, c.end);
            end = c.end;
            returns = refl;
            all = c.all;
            counted = unfold run_result in omega (arith, c.counted);
            told = unfold run_result in c.all.seq;
            kind = unfold run_result in refl;
          })

    -- Under the conditions of a rebuild, and with no new rows, rebuilding a projection that has
    -- caught up changes neither its read model nor its position nor its count of events.
    pub rebuild_agrees :
        {bound : ℕ} (fuel : ℕ) (m : Model) (s : Stored p size settle)
        → SettlesInOrder bound
        → ((i : ℕ) → seen i ≡ seen 0)
        → 0 < size
        → bound < fuel
        → Applied (p.reset m) (seen 0) s
        → (r : ProjectionRunResult) × (t : Stored p size settle) × (rebuild_one p size settle clock
              view fuel s
            ≡ some (r, t))
          × (t.model ≡ s.model)
          × (t.checkpoint.last_ingest_seq ≡ s.checkpoint.last_ingest_seq)
          × (t.checkpoint.events_applied ≡ s.checkpoint.events_applied)
    rebuild_agrees fuel m s v still pos room a =
        let r = rebuild_one-Ran fuel s v pos room in
        (
          r.result,
          r.end,
          r.returns,
          r.all.model
              ∙ ap (λ l. apply l (p.reset s.model)) (still r.last)
              ∙ ap (apply (seen 0)) (p.reset-eq s.model m)
              ∙ sym a.model,
          r.all.seq ∙ ap (last_seq 0) (still r.last) ∙ sym a.seq,
          r.all.count ∙ ap length (still r.last) ∙ sym a.count,
        )
