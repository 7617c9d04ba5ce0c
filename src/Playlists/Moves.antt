-- ===== src/Playlists/Moves.antt =====
-- src/services/PlaylistService.ts against the list of a playlist's songs in their order: what a
-- move does to that list.
use audio_block_backend.Playlists.{PlaylistSong, Store, get_editable_playlist}
use audio_block_backend.Playlists.Songs.{
  integer, is_entry, entries, insert_ascending, ascending, ordered_entries, set_positions,
  moved_order, move_entry, moved,
}
use audio_block_backend.Playlists.Positions.{occurs, position_of}
use audio_block_backend.Playlists.Orders.{
  is_song, occurs-song_ids, count_rows-ascending, count_rows-entries, count_rows-ordered_entries,
  MovedTo, moved_order-MovedTo,
}
use audio_block_backend.Playlists.Sorted.{occurs-get_elem?}
use audio_block_backend.Playlists.Refine.{order_of, Unique, order_of-set_positions}
use audio_block_backend.Base.{
  ℕ, ◌-◌, ◌≤◌, ◌<◌, min, ◌≡◌, refl, sym, ap, ◌∙◌, subst, ◌≢◌, inl, inr, Bool, some, List, [], ◌∷◌,
  arith, String, ◌==◌, Bool-cases, Option-cases, some_unique, >>=-Ensures, refuse-Ensures,
  Ensures-ok, find_row, select_rows, count_rows, count_rows-none, length, get_elem?, ok, gives,
  throws,
}

find_row-insert :
    (p : PlaylistSong → Bool) (a : PlaylistSong) (rows : List PlaylistSong)
    → count_rows p (a ∷ rows) ≤ 1
    → find_row p (insert_ascending (λ (x : PlaylistSong). x.position) a rows)
      ≡ find_row p (a ∷ rows)
unfolding find_row insert_ascending count_rows
find_row-insert p a [] h = refl
find_row-insert p a (b ∷ rows) h = ground (arith, find_row-insert p a rows, count_rows-none p rows)

find_row-ascending :
    (p : PlaylistSong → Bool) (rows : List PlaylistSong)
    → count_rows p rows ≤ 1
    → find_row p (ascending (λ (x : PlaylistSong). x.position) rows) ≡ find_row p rows
unfolding find_row ascending count_rows
find_row-ascending p [] h = refl
find_row-ascending p (a ∷ rows) h =
    find_row-insert p a (ascending (λ (x : PlaylistSong). x.position) rows)
      (ground (arith, h, count_rows-ascending (λ (x : PlaylistSong). x.position) p rows))
    ∙ ground (arith, h, find_row-ascending p rows)

find_row-entries :
    (id s : String) (songs : List PlaylistSong)
    → find_row (is_song s) (entries id songs) ≡ find_row (is_entry id s) songs
unfolding find_row entries select_rows
find_row-entries id s [] = refl
find_row-entries id s (x ∷ songs) = ground (arith, find_row-entries id s songs)

find_row-ordered :
    (id s : String) (songs : List PlaylistSong)
    → Unique id songs
    → find_row (is_song s) (ordered_entries id songs) ≡ find_row (is_entry id s) songs
unfolding ordered_entries
find_row-ordered id s songs once =
    find_row-ascending (is_song s) (entries id songs)
      (subst (λ n. n ≤ 1) (sym (count_rows-entries id s songs)) (once s))
    ∙ find_row-entries id s songs

-- The index that a song is moved to.
abbrev pub target_of : String → ℕ → List PlaylistSong → ℕ
target_of id n songs = min n (length (ordered_entries id songs) - 1)

-- The song at the target, or nothing done where the song's position equals it.
pub record Moved (id song : String) (n : ℕ) (before after : List PlaylistSong) : Type 0 where
  pub moves :
      position_of id song before ≢ some (target_of id n before)
      → MovedTo song (target_of id n before) (order_of id before) (order_of id after)
  pub ignored : position_of id song before ≡ some (target_of id n before) → after ≡ before

found_length :
    (p : PlaylistSong → Bool) (rows : List PlaylistSong) {e : PlaylistSong}
    → find_row p rows ≡ some e
    → 0 < length rows
unfolding find_row
found_length p [] h = cc
found_length p (x ∷ rows) h = omega arith

found_count :
    (p : PlaylistSong → Bool) (rows : List PlaylistSong) {e : PlaylistSong}
    → find_row p rows ≡ some e
    → 0 < count_rows p rows
unfolding find_row count_rows
found_count p [] h = cc
found_count p (x ∷ rows) h = elim (Bool-cases (p x)) [
  | inl f ↦ rw f (omega arith)
  | inr f ↦ rw f (found_count p rows (rw f at h))
]

-- The new order is the one that is read afterwards.
written_order :
    (id song : String) (n : ℕ) (songs : List PlaylistSong)
    → Unique id songs
    → occurs song (order_of id songs) ≡ 1
    → n < length (ordered_entries id songs)
    → MovedTo song n
        (order_of id songs)
        (order_of id (set_positions id (moved_order song n (ordered_entries id songs)) 0 songs))
unfolding order_of
written_order id song n songs once there h =
    let m = moved_order-MovedTo song n (ordered_entries id songs) there h in
    subst (MovedTo song n (order_of id songs))
      (sym (
        order_of-set_positions id (moved_order song n (ordered_entries id songs)) songs once (λ t.
          m.same_songs t
          ∙ occurs-song_ids t (ordered_entries id songs)
          ∙ count_rows-ordered_entries id t songs)))
      m

move_entry-Moved :
    (id song : String) (n : ℕ) (e : PlaylistSong) (st : Store)
    → Unique id st.songs
    → find_row (is_song song) (ordered_entries id st.songs) ≡ some e
    → Moved id song n st.songs (move_entry id song n e st).songs
unfolding move_entry
move_entry-Moved id song n e st once found =
    let there : position_of id song st.songs ≡ some e.position =
      unfold position_of in rw (sym (find_row-ordered id song st.songs once) ∙ found) refl in
    let one : occurs song (order_of id st.songs) ≡ 1 =
      unfold order_of in
      omega (
        arith,
        occurs-song_ids song (ordered_entries id st.songs),
        count_rows-ordered_entries id song st.songs,
        once song,
        found_count (is_song song) (ordered_entries id st.songs) found,
      ) in
    let long = found_length (is_song song) (ordered_entries id st.songs) found in
    elim (Bool-cases (target_of id n st.songs == e.position)) [
      | inl h ↦ rw h (record {
        moves = λ other. absurd (other (there ∙ ap some (ground (arith, h))));
        ignored = λ same. refl;
      })
      | inr h ↦ rw h (record {
        moves = λ other.
            written_order id song (target_of id n st.songs) st.songs once one (omega (arith, long));
        ignored = λ same. absurd (ground (arith, h, some_unique _ there same));
      })
    ]

-- A move that is answered takes the song out of the playlist's order and puts it in at the index
-- that is asked for, or at the last where that is beyond the end: the others keep their order. But
-- where the song's position equals that index, nothing is changed.
pub moved-Moved :
    (id user song : String) (n : ℕ) (st : Store) {st' : Store}
    → Unique id st.songs
    → moved id user song (integer n) st ≡ ok st'
    → Moved id song n st.songs st'.songs
unfolding moved
moved-Moved id user song n st once e =
    Ensures-ok {P = λ (x : Store). Moved id song n st.songs x.songs}
      (>>=-Ensures (get_editable_playlist id user st) (λ p f. refuse-Ensures p.is_rule_based _ (λ _.
        elim (Option-cases (find_row (is_song song) (ordered_entries id st.songs))) [
          | inl g ↦ rw g throws
          | inr (x, g) ↦ rw g (gives (move_entry-Moved id song n x st once g))
        ])))
      e

-- The position of each song is its index, as it is until a song is removed.
abbrev pub IsCompact : String → List PlaylistSong → Type 0
IsCompact id songs =
    (i : ℕ) (s : String)
    → get_elem? (order_of id songs) i ≡ some s
    → position_of id s songs ≡ some i

stays :
    (id song : String) (n : ℕ) (songs : List PlaylistSong)
    → IsCompact id songs
    → 0 < occurs song (order_of id songs)
    → position_of id song songs ≡ some n
    → MovedTo song n (order_of id songs) (order_of id songs)
stays id song n songs compact there at =
    let (i, e) = occurs-get_elem? song (order_of id songs) there in
    let same : i ≡ n = ground (arith, some_unique _ (compact i song e) at) in
    record {
      at = subst (λ k. get_elem? (order_of id songs) k ≡ some song) same e;
      others = refl;
      same_songs = λ t. refl;
    }

-- Where each position is the song's index, a move of a song of the playlist always takes it to the
-- index that is asked for.
pub moved_compact :
    (id user song : String) (n : ℕ) (st : Store) {st' : Store}
    → Unique id st.songs
    → IsCompact id st.songs
    → 0 < occurs song (order_of id st.songs)
    → moved id user song (integer n) st ≡ ok st'
    → MovedTo song (target_of id n st.songs) (order_of id st.songs) (order_of id st'.songs)
moved_compact id user song n st {st'} once compact there e =
    let m = moved-Moved id user song n st once e in
    elim (Option-cases (position_of id song st.songs)) [
      | inl p ↦ m.moves (λ q. cc)
      | inr (k, p) ↦ elim (Bool-cases (target_of id n st.songs == k)) [
        | inr h ↦ m.moves (λ q. ground (arith, h, some_unique _ p q))
        | inl h ↦
            let q : position_of id song st.songs ≡ some (target_of id n st.songs) =
              p ∙ ap some (ground (arith, h)) in
            subst
              (λ songs.
                MovedTo song (target_of id n st.songs) (order_of id st.songs) (order_of id songs))
              (sym (m.ignored q)) (stays id song (target_of id n st.songs) st.songs compact there q)
      ]
    ]
