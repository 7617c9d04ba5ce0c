-- ===== src/Playlists/Follows.antt =====
-- src/services/PlaylistService.ts: follows, and what is undone by its opposite.
use audio_block_backend.Playlists.{
  Playlist, PlaylistSong, PlaylistFollow, Store, get_readable_playlist, get_editable_playlist,
}
use audio_block_backend.Playlists.Songs.{
  CatalogueSong, is_entry, count_followers, add_song, remove_song,
}
use audio_block_backend.Playlists.Sharing.{
  is_follow, is_following, follow_playlist, unfollow_playlist,
}
use audio_block_backend.Playlists.Positions.{is_placed}
use audio_block_backend.Base.{
  ℕ, ◌+◌, ◌≡◌, refl, ap, inl, inr, Bool, true, false, not, none, some, List, [], ◌∷◌, ◌++◌, arith,
  String, if◌then◌else◌, Bool-cases, Option-cases, >>=-Ensures, refuse-Ensures, Ensures-ok,
  find_row, count_rows, find_row-append, count_rows-append, delete_rows-append, str_eq, str_eq_refl,
  ok, gives, throws,
}

-- What a follow that is answered leaves and tells.
pub record Followed (user id : String) (st : Store) (r : (Bool × ℕ) × Store) : Type 0 where
  pub follows : is_following user id r.1 ≡ true
  pub is_new : r.0.0 ≡ not (is_following user id st)
  pub count : r.0.1 ≡ count_followers id r.1
  pub grows : r.0.1 ≡ count_followers id st + (if is_following user id st then 0 else 1)
  pub undone : is_following user id st ≡ false → unfollow_playlist user id r.1 ≡ st

appended_follow :
    (user id : String) (st : Store)
    → is_following user id st ≡ false
    → let st' : Store = record st {
      follows = st.follows ++ record { user_id = user; playlist_id = id } ∷ [];
    } in
      Followed user id st ((true, count_followers id st'), st')
appended_follow user id st h =
    let none_of : find_row (is_follow user id) st.follows ≡ none =
      unfold is_following in
      elim (Option-cases (find_row (is_follow user id) st.follows)) [
        | inl e ↦ e
        | inr (f, e) ↦ absurd (ground (arith, h, e))
      ] in
    record {
      follows =
          unfold is_following in
          rw
            (
              find_row-append (is_follow user id) st.follows _ none_of,
              str_eq_refl user,
              str_eq_refl id,
            )
            refl;
      is_new = rw h refl;
      count = refl;
      grows =
          unfold count_followers count_rows in
          rw
            (
              h,
              count_rows-append (λ (f : PlaylistFollow). str_eq id f.playlist_id) st.follows
                  (record { user_id = user; playlist_id = id } ∷ []),
              str_eq_refl id,
            )
            refl;
      undone = λ _.
          unfold unfollow_playlist in
          ap (λ rows. record st { follows = rows })
            (delete_rows-append (is_follow user id) st.follows
              (record { user_id = user; playlist_id = id }) none_of
              (rw (str_eq_refl user, str_eq_refl id) refl));
    }

-- A follow that is answered makes the user a follower, says whether it was none before and how many
-- followers there are, one more just when it is new; a new follow is undone by an unfollow, which
-- leaves the state before it.
pub follow_playlist-Followed :
    (user id : String) (st : Store) {r : (Bool × ℕ) × Store}
    → follow_playlist user id st ≡ ok r
    → Followed user id st r
unfolding follow_playlist
follow_playlist-Followed user id st e =
    Ensures-ok {P = Followed user id st}
      (>>=-Ensures (get_readable_playlist id (some user) st) (λ p f.
        refuse-Ensures (str_eq p.user_id user) _ (λ _. elim (Bool-cases (is_following user id st)) [
          | inl h ↦ rw h (
              gives (record {
                follows = h;
                is_new = rw h refl;
                count = refl;
                grows = rw h (omega arith);
                undone = λ g. absurd (ground (arith, h, g));
              }))
          | inr h ↦ rw h (gives (appended_follow user id st h))
        ])))
      e

remove_added :
    (id user song : String) (n : ℕ) (st : Store) (p : Playlist)
    → get_editable_playlist id user st ≡ ok p
    → p.is_rule_based ≡ false
    → find_row (is_entry id song) st.songs ≡ none
    → remove_song id user song (record st {
      songs = st.songs ++ record { playlist_id = id; song_id = song; position = n } ∷ [];
    })
      ≡ ok st
unfolding remove_song
remove_added id user song n st p f g none_of =
    let e : PlaylistSong = record { playlist_id = id; song_id = song; position = n } in
    let fits : is_entry id song e ≡ true = rw (str_eq_refl id, str_eq_refl song) refl in
    let f' : get_editable_playlist id user (record st { songs = st.songs ++ e ∷ [] }) ≡ ok p =
      unfold get_editable_playlist in f in
    rw (f', g, find_row-append (is_entry id song) st.songs e none_of, fits)
      (ap (λ songs. ok (record st { songs = songs }))
        (delete_rows-append (is_entry id song) st.songs e none_of fits))

-- A song that the playlist did not have is gone again after an addition and a removal by the same
-- user, and the state is that before.
pub remove_song-add_song :
    (catalogue : List CatalogueSong) (id user song : String) (st : Store) {r : PlaylistSong × Store}
    → is_placed id song st.songs ≡ false
    → add_song catalogue id user song st ≡ ok r
    → remove_song id user song r.1 ≡ ok st
unfolding add_song is_placed
remove_song-add_song catalogue id user song st absent e =
    Ensures-ok {P = λ (r : PlaylistSong × Store). remove_song id user song r.1 ≡ ok st}
      (>>=-Ensures (get_editable_playlist id user st) (λ p f. refuse-Ensures p.is_rule_based _ (λ g.
        elim (Option-cases (find_row (λ (s : CatalogueSong). str_eq song s.id) catalogue)) [
          | inl h ↦ rw h throws
          | inr (s, h) ↦ elim (Option-cases (find_row (is_entry id song) st.songs)) [
            | inr (old, k) ↦ absurd (ground (arith, absent, k))
            | inl k ↦ rw (h, k) (gives (remove_added id user song _ st p f g k))
          ]
        ])))
      e
