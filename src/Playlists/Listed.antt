-- ===== src/Playlists/Listed.antt =====
-- src/services/PlaylistService.ts against the list of a playlist's songs in their order: what each
-- call does to that list.
use audio_block_backend.Playlists.{PlaylistSong, Store, get_editable_playlist}
use audio_block_backend.Playlists.Songs.{
  CatalogueSong, is_in, is_entry, entries, next_position, ascending, ordered_entries, add_song,
  remove_song, has_missing, is_empty, reordered,
}
use audio_block_backend.Playlists.Positions.{occurs, is_placed}
use audio_block_backend.Playlists.Orders.{song_ids, is_song, without, song_ids-delete_rows}
use audio_block_backend.Playlists.Sorted.{ascending-delete_rows, ascending-append}
use audio_block_backend.Playlists.Refine.{order_of, Unique, order_of-set_positions}
use audio_block_backend.Base.{
  ◌≡◌, refl, ap, ◌∙◌, inl, inr, true, List, [], ◌∷◌, ◌++◌, arith, String, if◌then◌else◌, Bool-cases,
  Option-cases, >>=-Ensures, refuse-Ensures, Ensures-ok, find_row, select_rows, delete_rows,
  count_rows, select_rows-append, str_eq, str_eq_refl, ok, gives, throws,
}

entries-delete_rows :
    (id s : String) (songs : List PlaylistSong)
    → entries id (delete_rows (is_entry id s) songs) ≡ delete_rows (is_song s) (entries id songs)
unfolding entries select_rows delete_rows
entries-delete_rows id s [] = refl
entries-delete_rows id s (x ∷ songs) = elim (Bool-cases (is_in id x)) [
  | inr e ↦ rw (e, e) (entries-delete_rows id s songs)
  | inl e ↦ elim (Bool-cases (str_eq s x.song_id)) [
    | inl f ↦ rw (e, f) (entries-delete_rows id s songs)
    | inr f ↦ rw (e, f, e, entries-delete_rows id s songs) refl
  ]
]

song_ids-append :
    (rows : List PlaylistSong) (e : PlaylistSong)
    → song_ids (rows ++ e ∷ []) ≡ song_ids rows ++ e.song_id ∷ []
song_ids-append [] e = refl
song_ids-append (x ∷ rows) e = ap (◌∷◌ x.song_id) (song_ids-append rows e)

entries-append_own :
    (id : String) (songs : List PlaylistSong) (e : PlaylistSong)
    → is_in id e ≡ true
    → entries id (songs ++ e ∷ []) ≡ entries id songs ++ e ∷ []
unfolding entries select_rows
entries-append_own id songs e h = select_rows-append (is_in id) songs (e ∷ []) ∙ rw h refl

order_of-append :
    (id : String) (songs : List PlaylistSong) (e : PlaylistSong)
    → is_in id e ≡ true
    → next_position (entries id songs) ≡ e.position
    → order_of id (songs ++ e ∷ []) ≡ order_of id songs ++ e.song_id ∷ []
unfolding order_of ordered_entries
order_of-append id songs e h at =
    ap (λ rows. song_ids (ascending (λ (x : PlaylistSong). x.position) rows))
      (entries-append_own id songs e h)
    ∙ ap song_ids (ascending-append e (entries id songs) (omega (arith, at)))
    ∙ song_ids-append (ascending (λ (x : PlaylistSong). x.position) (entries id songs)) e

-- A song that is added goes to the end of the playlist's order; one that is there already changes
-- nothing.
pub add_song-order :
    (catalogue : List CatalogueSong) (id user song : String) (st : Store) {r : PlaylistSong × Store}
    → add_song catalogue id user song st ≡ ok r
    → order_of id r.1.songs ≡ (
        if is_placed id song st.songs
        then order_of id st.songs
        else order_of id st.songs ++ song ∷ [])
unfolding add_song is_placed
add_song-order catalogue id user song st e =
    Ensures-ok
      {P = λ (r : PlaylistSong × Store). order_of id r.1.songs ≡ (
        if is_placed id song st.songs
        then order_of id st.songs
        else order_of id st.songs ++ song ∷ [])}
      (>>=-Ensures (get_editable_playlist id user st) (λ p f. refuse-Ensures p.is_rule_based _ (λ _.
        elim (Option-cases (find_row (λ (s : CatalogueSong). str_eq song s.id) catalogue)) [
          | inl g ↦ rw g throws
          | inr (s, g) ↦ elim (Option-cases (find_row (is_entry id song) st.songs)) [
            | inr (old, h) ↦ rw (g, h) (gives refl)
            | inl h ↦ rw (g, h) (gives (order_of-append id st.songs _ (str_eq_refl id) refl))
          ]
        ])))
      e

-- A song that is removed leaves the order, which is otherwise kept.
pub remove_song-order :
    (id user song : String) (st : Store) {st' : Store}
    → remove_song id user song st ≡ ok st'
    → order_of id st'.songs ≡ without song (order_of id st.songs)
unfolding remove_song order_of ordered_entries
remove_song-order id user song st e =
    Ensures-ok {P = λ (x : Store). order_of id x.songs ≡ without song (order_of id st.songs)}
      (>>=-Ensures (get_editable_playlist id user st) (λ p f. refuse-Ensures p.is_rule_based _ (λ _.
        elim (Option-cases (find_row (is_entry id song) st.songs)) [
          | inl g ↦ rw g throws
          | inr (old, g) ↦ rw g (
              gives (
                ap (λ rows. song_ids (ascending (λ (x : PlaylistSong). x.position) rows))
                  (entries-delete_rows id song st.songs)
                ∙ ap song_ids (ascending-delete_rows _ (is_song song) (entries id st.songs))
                ∙ song_ids-delete_rows song (ordered_entries id st.songs)))
        ])))
      e

-- A reorder that names every song of the playlist gives the order that is asked for.
pub reordered-order :
    (id user : String) (ids : List String) (st : Store) {st' : Store}
    → Unique id st.songs
    → ((t : String) → occurs t ids ≡ count_rows (is_entry id t) st.songs)
    → reordered id user ids st ≡ ok st'
    → order_of id st'.songs ≡ ids
unfolding reordered
reordered-order id user ids st once all e =
    Ensures-ok {P = λ (x : Store). order_of id x.songs ≡ ids}
      (>>=-Ensures (get_editable_playlist id user st) (λ p f. refuse-Ensures p.is_rule_based _ (λ _.
        refuse-Ensures (is_empty ids) _ (λ _.
          refuse-Ensures (has_missing id ids st.songs) _
            (λ g. gives (order_of-set_positions id ids st.songs once all))))))
      e
