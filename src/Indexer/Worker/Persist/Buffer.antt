-- ===== src/Indexer/Worker/Persist/Buffer.antt =====
-- The loop of IndexerWorker.persistProgress that decodes and buffers the events of a page.
use audio_block_backend.Base.{
  ℕ, suc, ◌+◌, ◌≤◌, ◌<◌, ◌≡◌, refl, ap, ◌∙◌, inl, inr, false, Option, none, some, List, [], ◌∷◌,
  ◌++◌, arith, Bool-cases, Option-cases, length, length-append,
}
use audio_block_backend.Indexer.Queue.{Queue}
use audio_block_backend.Indexer.Queue
use audio_block_backend.Indexer.Queue.Fifo.{not_full_of_nil}
use audio_block_backend.Indexer.Events.{InsertIndexedEvent}
use audio_block_backend.Indexer.Reader.{ContractEvent}
use audio_block_backend.Indexer.Worker.{
  Env, State, write_batch, push_one, buffer_one, buffer_events,
}
use audio_block_backend.Indexer.Worker.Flush.{
  SameWrites, SameWrites-refl, SameWrites-trans, write_batch-SameWrites, write_batch-append,
  pending, pending_of_nil, Flushed, flush_queue-Flushed,
}

-- The events of a page that the decoder reads, and the number of the others.
unfoldable pub decoded :
    (ContractEvent → Option InsertIndexedEvent) → List ContractEvent → List InsertIndexedEvent
decoded decode [] = []
decoded decode (ev ∷ events) = elim (decode ev) [
  | none ↦ decoded decode events
  | some dto ↦ dto ∷ decoded decode events
]

unfoldable pub unreadable : (ContractEvent → Option InsertIndexedEvent) → List ContractEvent → ℕ
unreadable decode [] = 0
unreadable decode (ev ∷ events) = elim (decode ev) [
  | none ↦ suc (unreadable decode events)
  | some dto ↦ unreadable decode events
]

pub decoded-unreadable :
    (decode : ContractEvent → Option InsertIndexedEvent) (events : List ContractEvent)
    → length (decoded decode events) + unreadable decode events ≡ length events
unfolding decoded unreadable
decoded-unreadable decode [] = omega arith
decoded-unreadable decode (ev ∷ events) = ground (arith, decoded-unreadable decode events)

module _ (env : Env) where
  -- There is room in the queue, and the sizes are positive.
  pub record HasRoom (s : State) : Type 0 where
    pub batch : 0 < env.write_batch_size
    pub size : 0 < s.queue.max_size
    pub room : length s.queue.items ≤ s.queue.max_size

  -- The run ends; once what it left buffered is written, the writes are those of `dtos` in order
  -- after what was buffered before; `k` events were skipped, and the cursors were left alone.
  pub record Wrote (dtos : List InsertIndexedEvent) (k : ℕ) (s : State) (o : Option State)
      : Type 0 where
    pub end : State
    pub returns : o ≡ some end
    pub has_room : HasRoom end
    pub writes : SameWrites (pending env end) (write_batch env dtos (pending env s))
    pub skips : end.skipped ≡ s.skipped + k
    pub cursors : end.cursors ≡ s.cursors
    pub guard : end.guard ≡ s.guard

  push_one-items :
      (dto : InsertIndexedEvent) (s : State)
      → Queue.is_full s.queue ≡ false
      → ((push_one env dto s).queue.items ≡ s.queue.items ++ dto ∷ [])
        × ((push_one env dto s).queue.max_size ≡ s.queue.max_size)
  unfolding push_one Queue.try_enqueue
  push_one-items dto s e = ground arith

  push_one-SameWrites : (dto : InsertIndexedEvent) (s : State) → SameWrites (push_one env dto s) s
  unfolding push_one
  push_one-SameWrites dto s = record { store = refl; processed = refl; errors = refl }

  pending-push_one :
      (dto : InsertIndexedEvent) (s : State)
      → Queue.is_full s.queue ≡ false
      → SameWrites (pending env (push_one env dto s)) (write_batch env (dto ∷ []) (pending env s))
  unfolding pending push_one
  pending-push_one dto s e =
      simp ((push_one-items dto s e).0, ← write_batch-append env s.queue.items (dto ∷ []) s)
        (write_batch-SameWrites env (s.queue.items ++ dto ∷ []) _ s (push_one-SameWrites dto s))

  not_full_room :
      (q : Queue InsertIndexedEvent) → Queue.is_full q ≡ false → length q.items < q.max_size
  unfolding Queue.is_full
  not_full_room q e = ground arith

  Wrote-push_one :
      (dto : InsertIndexedEvent) (s : State)
      → HasRoom s
      → Queue.is_full s.queue ≡ false
      → Wrote (dto ∷ []) 0 s (some (push_one env dto s))
  unfolding push_one
  Wrote-push_one dto s h e =
      let (items, size) = push_one-items dto s e in
      record {
        end = push_one env dto s;
        returns = refl;
        has_room = record {
          batch = h.batch;
          size = omega (arith, size, h.size);
          room = omega (
            arith,
            size,
            ap length items,
            length-append s.queue.items (dto ∷ []),
            not_full_room s.queue e,
          );
        };
        writes = pending-push_one dto s e;
        skips = omega arith;
        cursors = refl;
        guard = refl;
      }

  -- One run after another.
  Wrote-trans :
      {xs ys : List InsertIndexedEvent} {j k n : ℕ} {s : State} {o r : Option State}
      (f : Wrote xs j s o)
      → Wrote ys k f.end r
      → n ≡ j + k
      → Wrote (xs ++ ys) n s r
  Wrote-trans {xs} {ys} {s} f g sum = record {
    end = g.end;
    returns = g.returns;
    has_room = g.has_room;
    writes =
        rw (write_batch-append env xs ys (pending env s))
          (SameWrites-trans g.writes (write_batch-SameWrites env ys _ _ f.writes));
    skips = omega (arith, f.skips, g.skips, sum);
    cursors = g.cursors ∙ f.cursors;
    guard = g.guard ∙ f.guard;
  }

  -- A flush by itself.
  Wrote-Flushed : (s : State) {o : Option State} → HasRoom s → Flushed env s o → Wrote [] 0 s o
  Wrote-Flushed s h f = record {
    end = f.end;
    returns = f.returns;
    has_room = record {
      batch = h.batch;
      size = omega (arith, f.keeps.max_size, h.size);
      room = omega (arith, ap length f.emptied);
    };
    writes = rw (pending_of_nil env f.end f.emptied) (unfold write_batch in f.writes);
    skips = omega (arith, f.keeps.skipped);
    cursors = f.keeps.cursors;
    guard = f.keeps.guard;
  }

  buffer_one-Wrote :
      (dto : InsertIndexedEvent) (s : State)
      → HasRoom s
      → Wrote (dto ∷ []) 0 s (buffer_one env dto s)
  unfolding buffer_one Wrote-Flushed
  buffer_one-Wrote dto s h = elim (Bool-cases (Queue.is_full s.queue)) [
    | inl full ↦
        let f = flush_queue-Flushed env s h.batch in
        let w = Wrote-Flushed s h f in
        rw (full, f.returns, buffer_one)
          (Wrote-trans w
            (Wrote-push_one dto f.end w.has_room
              (not_full_of_nil f.end.queue f.emptied w.has_room.size))
            refl)
    | inr room ↦ rw (room, buffer_one) (Wrote-push_one dto s h room)
  ]

  HasRoom-skip : (s : State) → HasRoom s → HasRoom (record s { skipped = s.skipped + 1 })
  HasRoom-skip s h = record { batch = h.batch; size = h.size; room = h.room }

  pending-skip :
      (s : State) → SameWrites (pending env (record s { skipped = s.skipped + 1 })) (pending env s)
  unfolding pending
  pending-skip s =
      write_batch-SameWrites env s.queue.items (record s { skipped = s.skipped + 1 }) s
        (record { store = refl; processed = refl; errors = refl })

  Wrote-skip :
      {xs : List InsertIndexedEvent} {k : ℕ} (s : State) {o : Option State}
      → Wrote xs k (record s { skipped = s.skipped + 1 }) o
      → Wrote xs (suc k) s o
  Wrote-skip {xs} s f = record {
    end = f.end;
    returns = f.returns;
    has_room = f.has_room;
    writes = SameWrites-trans f.writes (write_batch-SameWrites env xs _ _ (pending-skip s));
    skips = omega (arith, f.skips);
    cursors = f.cursors;
    guard = f.guard;
  }

  pub buffer_events-Wrote :
      (decode : ContractEvent → Option InsertIndexedEvent) (events : List ContractEvent) (s : State)
      → HasRoom s
      → Wrote
          (decoded decode events)
          (unreadable decode events)
          s
          (buffer_events env decode events s)
  unfolding buffer_events decoded unreadable
  buffer_events-Wrote decode [] s h = record {
    end = s;
    returns = refl;
    has_room = h;
    writes = unfold write_batch in SameWrites-refl (pending env s);
    skips = omega arith;
    cursors = refl;
    guard = refl;
  }
  buffer_events-Wrote decode (ev ∷ events) s h = elim (Option-cases (decode ev)) [
    | inl e ↦
        rw (e, buffer_events, decoded, unreadable)
          (Wrote-skip s (
            buffer_events-Wrote decode events (record s { skipped = s.skipped + 1 })
              (HasRoom-skip s h)))
    | inr (dto, e) ↦
        let f = buffer_one-Wrote dto s h in
        let g = buffer_events-Wrote decode events f.end f.has_room in
        rw (e, buffer_events, decoded, unreadable) (rw f.returns (Wrote-trans f g (omega arith)))
  ]
