-- ===== src/Playlists/Positions.antt =====
-- src/services/PlaylistService.ts: the positions that a new order writes.
use mathlib.Core.Option
use audio_block_backend.Playlists.{PlaylistSong, Store, is_found, get_editable_playlist}
use audio_block_backend.Playlists.Songs.{
  is_entry, set_position, set_positions, has_missing, is_empty, reordered,
}
use audio_block_backend.Base.{
  ℕ, zero, suc, ◌+◌, ◌≤◌, ◌≡◌, refl, sym, ap, ◌∙◌, inl, inr, Bool, true, false, Option, some, List,
  [], ◌∷◌, arith, String, eq_iff, if◌then◌else◌, Option-cases, >>=-Ensures, refuse-Ensures,
  Ensures-ok, find_row, find_row_fits, find_row-map, str_eq, get_elem?, ok, gives,
}

-- How often a text occurs.
unfoldable pub occurs : String → List String → ℕ
occurs s [] = 0
occurs s (t ∷ rest) = (if str_eq s t then 1 else 0) + occurs s rest

unfoldable pub position_of : String → String → List PlaylistSong → Option ℕ
position_of id song songs =
    Option.map (λ (e : PlaylistSong). e.position) (find_row (is_entry id song) songs)

unfoldable pub is_placed : String → String → List PlaylistSong → Bool
is_placed id song songs = is_found (find_row (is_entry id song) songs)

pub position_of-is_placed :
    (id song : String) (songs : List PlaylistSong) {n : ℕ}
    → position_of id song songs ≡ some n
    → is_placed id song songs ≡ true
unfolding position_of is_placed
position_of-is_placed id song songs e = elim (Option-cases (find_row (is_entry id song) songs)) [
  | inl f ↦ absurd (ground (arith, f, e))
  | inr (x, f) ↦ rw f refl
]

find_row-set_position :
    (id s t : String) (n : ℕ) (songs : List PlaylistSong)
    → find_row (is_entry id s) (set_position id t n songs)
      ≡ Option.map
          (λ (e : PlaylistSong). if is_entry id t e then record e { position = n } else e)
          (find_row (is_entry id s) songs)
find_row-set_position id s t n songs = find_row-map (is_entry id s) _ songs (λ x. ground arith)

set_position_other :
    (id s t : String) (n : ℕ) (songs : List PlaylistSong)
    → str_eq s t ≡ false
    → position_of id s (set_position id t n songs) ≡ position_of id s songs
unfolding position_of
set_position_other id s t n songs h = elim (Option-cases (find_row (is_entry id s) songs)) [
  | inl e ↦ rw (find_row-set_position id s t n songs, e)
  | inr (x, e) ↦
      let fit = find_row_fits (is_entry id s) songs x e in
      let apart : is_entry id t x ≡ false =
        ground (arith, fit, h, eq_iff s t, eq_iff s x.song_id, eq_iff t x.song_id) in
      rw (find_row-set_position id s t n songs, e, apart)
]

set_position_self :
    (id s : String) (n : ℕ) (songs : List PlaylistSong)
    → is_placed id s songs ≡ true
    → position_of id s (set_position id s n songs) ≡ some n
unfolding position_of is_placed
set_position_self id s n songs h = elim (Option-cases (find_row (is_entry id s) songs)) [
  | inl e ↦ absurd (ground (arith, e, h))
  | inr (x, e) ↦
      rw (find_row-set_position id s s n songs, e, find_row_fits (is_entry id s) songs x e)
]

is_placed-set_position :
    (id s t : String) (n : ℕ) (songs : List PlaylistSong)
    → is_placed id s (set_position id t n songs) ≡ is_placed id s songs
unfolding is_placed
is_placed-set_position id s t n songs = elim (Option-cases (find_row (is_entry id s) songs)) [
  | inl e ↦ rw (find_row-set_position id s t n songs, e)
  | inr (x, e) ↦ rw (find_row-set_position id s t n songs, e)
]

-- A song that is not named keeps its position.
pub set_positions_unnamed :
    (id s : String) (ids : List String) (n : ℕ) (songs : List PlaylistSong)
    → occurs s ids ≡ 0
    → position_of id s (set_positions id ids n songs) ≡ position_of id s songs
unfolding set_positions occurs
set_positions_unnamed id s [] n songs h = refl
set_positions_unnamed id s (t ∷ ids) n songs h =
    set_positions_unnamed id s ids (suc n) (set_position id t n songs) (ground arith)
    ∙ set_position_other id s t n songs (ground arith)

-- A song that is named once has the position of its index.
pub set_positions_named :
    (id : String) (ids : List String) (n i : ℕ) (s : String) (songs : List PlaylistSong)
    → get_elem? ids i ≡ some s
    → occurs s ids ≤ 1
    → is_placed id s songs ≡ true
    → position_of id s (set_positions id ids n songs) ≡ some (n + i)
unfolding set_positions occurs
set_positions_named id [] n i s songs e h there = cc
set_positions_named id (t ∷ ids) n zero s songs e h there =
    let same : t ≡ s = ground (arith, e) in
    let alone : occurs s ids ≡ 0 = ground (arith, h, same, eq_iff s t) in
    set_positions_unnamed id s ids (suc n) (set_position id t n songs) alone
    ∙ ap (λ x. position_of id s (set_position id x n songs)) same
    ∙ set_position_self id s n songs there
    ∙ ap some (omega arith)
set_positions_named id (t ∷ ids) n (suc i) s songs e h there =
    set_positions_named id ids (suc n) i s (set_position id t n songs) e (ground arith)
      (is_placed-set_position id s t n songs ∙ there)
    ∙ ap some (omega arith)

pub has_missing-is_placed :
    (id : String) (ids : List String) (songs : List PlaylistSong) (i : ℕ) (s : String)
    → has_missing id ids songs ≡ false
    → get_elem? ids i ≡ some s
    → is_placed id s songs ≡ true
unfolding has_missing is_placed
has_missing-is_placed id [] songs i s h e = cc
has_missing-is_placed id (t ∷ ids) songs zero s h e =
    let same : t ≡ s = ground (arith, e) in
    ap (λ x. is_found (find_row (is_entry id x) songs)) (sym same) ∙ ground (arith, h)
has_missing-is_placed id (t ∷ ids) songs (suc i) s h e =
    has_missing-is_placed id ids songs i s (ground (arith, h)) e

-- The positions after a reorder.
pub record Reordered (id : String) (ids : List String) (before after : List PlaylistSong)
    : Type 0 where
  pub named :
      (i : ℕ) (s : String)
      → get_elem? ids i ≡ some s
      → occurs s ids ≤ 1
      → position_of id s after ≡ some i
  pub unnamed : (s : String) → occurs s ids ≡ 0 → position_of id s after ≡ position_of id s before

-- A reorder that is answered gives each song that it names once the position of its index in the
-- request, and leaves the position of each song that it does not name.
pub reordered-Reordered :
    (id user : String) (ids : List String) (st : Store) {st' : Store}
    → reordered id user ids st ≡ ok st'
    → Reordered id ids st.songs st'.songs
unfolding reordered
reordered-Reordered id user ids st e =
    Ensures-ok {P = λ (x : Store). Reordered id ids st.songs x.songs}
      (>>=-Ensures (get_editable_playlist id user st) (λ p f. refuse-Ensures p.is_rule_based _ (λ _.
        refuse-Ensures (is_empty ids) _ (λ _. refuse-Ensures (has_missing id ids st.songs) _ (λ g.
          gives (record {
            named = λ i s at once.
                set_positions_named id ids 0 i s st.songs at once
                  (has_missing-is_placed id ids st.songs i s g at)
                ∙ ap some (omega arith);
            unnamed = λ s none_of. set_positions_unnamed id s ids 0 st.songs none_of;
          }))))))
      e
