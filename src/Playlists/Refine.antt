-- ===== src/Playlists/Refine.antt =====
-- src/services/PlaylistService.ts against the list of a playlist's songs in their order: what each
-- call does to that list.
use audio_block_backend.Playlists.{PlaylistSong}
use audio_block_backend.Playlists.Songs.{
  is_in, is_entry, entries, ordered_entries, set_position, set_positions,
}
use audio_block_backend.Playlists.Positions.{occurs, position_of, is_placed, set_positions_named}
use audio_block_backend.Playlists.Orders.{song_ids, occurs-song_ids, count_rows-ordered_entries}
use audio_block_backend.Playlists.Sorted.{
  ascending-Sorted, Agree, Agree-ascending, Agree-Ranked, StrictlyRanked-indices, Ranked-unique,
}
use audio_block_backend.Base.{
  ℕ, zero, suc, ◌+◌, ◌≤◌, ◌<◌, ◌≡◌, refl, sym, ◌∙◌, inl, inr, true, some, List, [], ◌∷◌, arith,
  String, eq_iff, if◌then◌else◌, Bool-cases, Option-cases, find_row, select_rows, count_rows,
  count_rows-map, count_rows-none, or_else, get_elem?,
}

-- The songs of a playlist in their order.
unfoldable pub order_of : String → List PlaylistSong → List String
order_of id songs = song_ids (ordered_entries id songs)

-- The playlist has each song once at most.
abbrev pub Unique : String → List PlaylistSong → Type 0
Unique id songs = (s : String) → count_rows (is_entry id s) songs ≤ 1

entries-set_position :
    (id t s : String) (n : ℕ) (songs : List PlaylistSong)
    → count_rows (is_entry id t) (set_position id s n songs) ≡ count_rows (is_entry id t) songs
entries-set_position id t s n songs = count_rows-map (is_entry id t) _ songs (λ x. ground arith)

pub count_rows-set_positions :
    (id x t : String) (ids : List String) (n : ℕ) (songs : List PlaylistSong)
    → count_rows (is_entry x t) (set_positions id ids n songs) ≡ count_rows (is_entry x t) songs
unfolding set_positions
count_rows-set_positions id x t [] n songs = refl
count_rows-set_positions id x t (s ∷ ids) n songs =
    count_rows-set_positions id x t ids (suc n) (set_position id s n songs)
    ∙ count_rows-map (is_entry x t) _ songs (λ y. ground arith)

position_or_zero : String → List PlaylistSong → String → ℕ
position_or_zero id songs s = or_else (position_of id s songs) 0

position_head :
    (id s : String) (x : PlaylistSong) (songs : List PlaylistSong)
    → position_or_zero id (x ∷ songs) s
      ≡ (if is_entry id s x then x.position else position_or_zero id songs s)
unfolding position_or_zero position_of find_row
position_head id s x songs = elim (Bool-cases (is_entry id s x)) [
  | inl e ↦ rw e refl
  | inr e ↦ rw e refl
]

entries-Agree :
    (id : String) (f : String → ℕ) (songs : List PlaylistSong)
    → Unique id songs
    → ((s : String) → 0 < count_rows (is_entry id s) songs → f s ≡ position_or_zero id songs s)
    → Agree f (entries id songs)
unfolding entries select_rows count_rows
entries-Agree id f [] once same = tt
entries-Agree id f (x ∷ songs) once same =
    let rest =
      entries-Agree id f songs (λ s. ground (arith, once s))
        (λ s h. ground (arith, once s, h, same s, position_head id s x songs)) in
    elim (Bool-cases (is_in id x)) [
      | inr e ↦ rw e rest
      | inl e ↦ rw e (
        (ground (
          arith,
          e,
          same x.song_id,
          position_head id x.song_id x songs,
          eq_iff x.song_id x.song_id,
        )),
        rest,
      )
    ]

get_elem?-occurs :
    (ids : List String) (i : ℕ) (s : String) → get_elem? ids i ≡ some s → 0 < occurs s ids
unfolding occurs
get_elem?-occurs [] i s e = cc
get_elem?-occurs (t ∷ ids) zero s e =
    let same : s ≡ t = ground (arith, e) in ground (arith, same, eq_iff s t)
get_elem?-occurs (t ∷ ids) (suc i) s e = omega (arith, get_elem?-occurs ids i s e)

counted-is_placed :
    (id s : String) (songs : List PlaylistSong)
    → 0 < count_rows (is_entry id s) songs
    → is_placed id s songs ≡ true
unfolding is_placed
counted-is_placed id s songs h = elim (Option-cases (find_row (is_entry id s) songs)) [
  | inl e ↦ absurd (omega (arith, h, count_rows-none (is_entry id s) songs e))
  | inr (x, e) ↦ rw e refl
]

named_rank :
    (id : String) (ids : List String) (songs : List PlaylistSong) (i : ℕ) (s : String)
    → Unique id songs
    → ((t : String) → occurs t ids ≡ count_rows (is_entry id t) songs)
    → get_elem? ids i ≡ some s
    → position_or_zero id (set_positions id ids 0 songs) s ≡ 0 + i
unfolding position_or_zero
named_rank id ids songs i s once all e =
    let there : 0 < count_rows (is_entry id s) songs =
      omega (arith, get_elem?-occurs ids i s e, all s) in
    rw
      (set_positions_named id ids 0 i s songs e (omega (arith, all s, once s))
        (counted-is_placed id s songs there))
      refl

-- An order that names each song of the playlist is the order after its positions are written.
pub order_of-set_positions :
    (id : String) (ids : List String) (songs : List PlaylistSong)
    → Unique id songs
    → ((t : String) → occurs t ids ≡ count_rows (is_entry id t) songs)
    → order_of id (set_positions id ids 0 songs) ≡ ids
unfolding order_of ordered_entries
order_of-set_positions id ids songs once all =
    let after = set_positions id ids 0 songs in
    let counts = λ (t : String). count_rows-set_positions id id t ids 0 songs in
    let rank = position_or_zero id after in
    Ranked-unique rank (order_of id after) ids
      (Agree-Ranked rank (ordered_entries id after) (ascending-Sorted _ (entries id after)) (
        Agree-ascending rank (entries id after)
          (entries-Agree id rank after (λ s. omega (arith, counts s, once s)) (λ s h. refl))))
      (StrictlyRanked-indices rank ids 0 (λ i s e. named_rank id ids songs i s once all e))
      (λ t.
        occurs-song_ids t (ordered_entries id after)
        ∙ count_rows-ordered_entries id t after
        ∙ counts t
        ∙ sym (all t))
