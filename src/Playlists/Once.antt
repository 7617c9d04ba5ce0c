-- ===== src/Playlists/Once.antt =====
-- src/services/PlaylistService.ts: the rows that the tables hold once, and the calls on songs.
use audio_block_backend.Playlists.{
  Playlist, PlaylistSong, PlaylistCollaborator, PlaylistFollow, Store, is_invited,
  get_editable_playlist,
}
use audio_block_backend.Playlists.Songs.{
  CatalogueSong, Number, integer, other, is_entry, ordered_entries, add_song, remove_song,
  set_positions, has_missing, is_empty, reordered, moved_order, move_entry, moved,
}
use audio_block_backend.Playlists.Sharing.{is_follow}
use audio_block_backend.Playlists.Rules.{Ruled}
use audio_block_backend.Playlists.Refine.{count_rows-set_positions}
use audio_block_backend.Base.{
  ℕ, ◌-◌, ◌≤◌, min, ◌≡◌, ap, ◌∙◌, inl, inr, Bool, true, none, List, [], ◌∷◌, ◌++◌, arith, String,
  eq_iff, ◌==◌, Bool-cases, Option-cases, Ensures, >>=-Ensures, refuse-Ensures, find_row,
  delete_rows, count_rows, count_rows-append, count_rows-delete_rows, count_rows-none, str_eq,
  length, gives, throws,
}

-- A song stands once in a playlist, a user is invited and follows once at most, and a playlist that
-- is resolved by a rule has a valid one.
pub record Sound (st : Store) : Type 0 where
  pub songs_once : (id s : String) → count_rows (is_entry id s) st.songs ≤ 1
  pub invited_once : (id u : String) → count_rows (is_invited id u) st.collaborators ≤ 1
  pub follows_once : (u id : String) → count_rows (is_follow u id) st.follows ≤ 1
  pub ruled : Ruled st.playlists

pub songs-Sound :
    {st : Store} (rows : List PlaylistSong)
    → Sound st
    → ((id s : String) → count_rows (is_entry id s) rows ≤ 1)
    → Sound (record st { songs = rows })
songs-Sound rows v h = record {
  songs_once = h;
  invited_once = v.invited_once;
  follows_once = v.follows_once;
  ruled = v.ruled;
}

pub collaborators-Sound :
    {st : Store} (rows : List PlaylistCollaborator)
    → Sound st
    → ((id u : String) → count_rows (is_invited id u) rows ≤ 1)
    → Sound (record st { collaborators = rows })
collaborators-Sound rows v h = record {
  songs_once = v.songs_once;
  invited_once = h;
  follows_once = v.follows_once;
  ruled = v.ruled;
}

pub follows-Sound :
    {st : Store} (rows : List PlaylistFollow)
    → Sound st
    → ((u id : String) → count_rows (is_follow u id) rows ≤ 1)
    → Sound (record st { follows = rows })
follows-Sound rows v h = record {
  songs_once = v.songs_once;
  invited_once = v.invited_once;
  follows_once = h;
  ruled = v.ruled;
}

pub playlists-Sound :
    {st : Store} (rows : List Playlist)
    → Sound st
    → Ruled rows
    → Sound (record st { playlists = rows })
playlists-Sound rows v h = record {
  songs_once = v.songs_once;
  invited_once = v.invited_once;
  follows_once = v.follows_once;
  ruled = h;
}

module _ {R : Type 0} (key : String → String → R → Bool) where
  pub once-append :
      (rows : List R) (r : R) (a b : String)
      → ((x y : String) → key x y r ≡ true → (x ≡ a) × (y ≡ b))
      → find_row (key a b) rows ≡ none
      → ((x y : String) → count_rows (key x y) rows ≤ 1)
      → (x y : String) → count_rows (key x y) (rows ++ r ∷ []) ≤ 1
  unfolding count_rows
  once-append rows r a b same absent once x y = elim (Bool-cases (key x y r)) [
    | inr e ↦ ground (arith, e, once x y, count_rows-append (key x y) rows (r ∷ []))
    | inl e ↦
        let (p, q) = same x y e in
        let none_of : count_rows (key x y) rows ≡ 0 =
          count_rows-none (key x y) rows (
            ap (λ (k : String × String). find_row (key k.0 k.1) rows) (λ i. (p i, q i)) ∙ absent) in
        ground (arith, e, none_of, count_rows-append (key x y) rows (r ∷ []))
  ]

  pub once-delete :
      (p : R → Bool) (rows : List R)
      → ((x y : String) → count_rows (key x y) rows ≤ 1)
      → (x y : String) → count_rows (key x y) (delete_rows p rows) ≤ 1
  once-delete p rows once x y = omega (arith, once x y, count_rows-delete_rows p (key x y) rows)

pub add_song-Sound :
    (catalogue : List CatalogueSong) (id user song : String) (st : Store)
    → Sound st
    → Ensures (λ (r : PlaylistSong × Store). Sound r.1) (add_song catalogue id user song st)
unfolding add_song
add_song-Sound catalogue id user song st v = >>=-Ensures (get_editable_playlist id user st) (λ p f.
    refuse-Ensures p.is_rule_based _ (λ _.
      elim (Option-cases (find_row (λ (s : CatalogueSong). str_eq song s.id) catalogue)) [
        | inl e ↦ rw e throws
        | inr (s, e) ↦ elim (Option-cases (find_row (is_entry id song) st.songs)) [
          | inr (old, e') ↦ rw (e, e') (gives v)
          | inl e' ↦
              rw (e, e')
                (gives (
                  songs-Sound _ v (
                    once-append is_entry st.songs _ id song
                      (λ x y h. (ground (arith, h, eq_iff x id), ground (arith, h, eq_iff y song)))
                      e' v.songs_once)))
        ]
      ]))

pub remove_song-Sound :
    (id user song : String) (st : Store) → Sound st → Ensures Sound (remove_song id user song st)
unfolding remove_song
remove_song-Sound id user song st v = >>=-Ensures (get_editable_playlist id user st) (λ p f.
    refuse-Ensures p.is_rule_based _ (λ _.
      elim (Option-cases (find_row (is_entry id song) st.songs)) [
        | inl e ↦ rw e throws
        | inr (old, e) ↦ rw e (
            gives (songs-Sound _ v (once-delete is_entry (is_entry id song) st.songs v.songs_once)))
      ]))

-- New positions keep the songs.
positions-Sound :
    (id : String) (ids : List String) (n : ℕ) (st : Store)
    → Sound st
    → Sound (record st { songs = set_positions id ids n st.songs })
positions-Sound id ids n st v =
    songs-Sound (set_positions id ids n st.songs) v
      (λ x s. omega (arith, count_rows-set_positions id x s ids n st.songs, v.songs_once x s))

pub reordered-Sound :
    (id user : String) (ids : List String) (st : Store)
    → Sound st
    → Ensures Sound (reordered id user ids st)
unfolding reordered
reordered-Sound id user ids st v = >>=-Ensures (get_editable_playlist id user st) (λ p f.
    refuse-Ensures p.is_rule_based _ (λ _. refuse-Ensures (is_empty ids) _ (λ _.
      refuse-Ensures (has_missing id ids st.songs) _ (λ _. gives (positions-Sound id ids 0 st v)))))

move_entry-Sound :
    (id song : String) (n : ℕ) (e : PlaylistSong) (st : Store)
    → Sound st
    → Sound (move_entry id song n e st)
unfolding move_entry
move_entry-Sound id song n e st v =
    elim (Bool-cases (min n (length (ordered_entries id st.songs) - 1) == e.position)) [
      | inl h ↦ rw h v
      | inr h ↦ rw h (
          positions-Sound id
            (moved_order song (min n (length (ordered_entries id st.songs) - 1))
              (ordered_entries id st.songs))
            0 st v)
    ]

pub moved-Sound :
    (id user song : String) (wanted : Number) (st : Store)
    → Sound st
    → Ensures Sound (moved id user song wanted st)
unfolding moved
moved-Sound id user song other st v =
    >>=-Ensures (get_editable_playlist id user st)
      (λ p f. refuse-Ensures p.is_rule_based _ (λ _. throws))
moved-Sound id user song (integer n) st v = >>=-Ensures (get_editable_playlist id user st) (λ p f.
    refuse-Ensures p.is_rule_based _ (λ _.
      elim (Option-cases
        (find_row (λ (e : PlaylistSong). str_eq song e.song_id) (ordered_entries id st.songs))) [
          | inl e ↦ rw e throws
          | inr (x, e) ↦ rw e (gives (move_entry-Sound id song n x st v))
        ]))
