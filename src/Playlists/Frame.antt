-- ===== src/Playlists/Frame.antt =====
-- src/services/PlaylistService.ts: a call changes one playlist and its songs, for a user that may edit
-- it.
use audio_block_backend.Playlists.{
  Playlist, PlaylistSong, PlaylistCollaborator, is_invited, PlaylistRule, assert_valid_rule,
  given_rule, Store, UpdatePlaylistInput, is_named, get_editable_playlist, get_owned_playlist,
  set_name, set_rule, set_details, save_playlist, update, remove,
}
use audio_block_backend.Playlists.Songs.{
  CatalogueSong, Number, integer, other, is_in, is_entry, entries, add_song, remove_song,
  set_position, set_positions, reordered, move_entry, moved, has_missing, is_empty, ordered_entries,
  moved_order,
}
use audio_block_backend.Playlists.Access.{
  Owns, MayEdit, Owns-MayEdit, get_editable_playlist-MayEdit, get_owned_playlist-Owns,
}
use audio_block_backend.Base.{
  ℕ, suc, ◌-◌, min, ◌≡◌, refl, ◌∙◌, subst, ◌⊎◌, inl, inr, Bool, true, false, Option, none, some,
  List, [], ◌∷◌, ◌++◌, append-nil, arith, String, eq_iff, ◌==◌, Bool-cases, Option-cases, Ensures,
  >>=-Ensures, refuse-Ensures, Ensures-ok, find_row, select_rows, delete_rows, find_row_fits,
  find_row-save_row_other, find_row-delete_rows_other, select_rows-append,
  select_rows-delete_rows_other, select_rows-map_other, str_eq, length, trim, gives, throws,
}

-- The playlist and its songs are what they were.
pub record Unchanged (id : String) (st st' : Store) : Type 0 where
  pub playlists : find_row (is_named id) st'.playlists ≡ find_row (is_named id) st.playlists
  pub songs : entries id st'.songs ≡ entries id st.songs

-- Another's invitation is what it was, but for the owner of the playlist and the user itself.
abbrev pub Invites : String → Store → Store → Type 0
Invites user st st' =
    (x v : String)
    → Owns user x st
      ⊎ (str_eq v user ≡ true)
      ⊎ (find_row (is_invited x v) st'.collaborators ≡ find_row (is_invited x v) st.collaborators)

-- A change of one playlist by a user that may edit it.
pub record Edited (user id : String) (st st' : Store) : Type 0 where
  pub may_edit : MayEdit user id st
  pub elsewhere : (x : String) → str_eq id x ≡ false → Unchanged x st st'
  pub invites : Invites user st st'

pub same_text : (s t u : String) → str_eq s t ≡ false → str_eq s u ≡ true → str_eq t u ≡ false
same_text s t u h e = ground (arith, eq_iff s t, eq_iff s u, eq_iff t u)

pub set_rule-id :
    (b : Option Bool) (rule : Option (Option PlaylistRule)) (p : Playlist)
    → Ensures (λ (q : Playlist). q.id ≡ p.id) (set_rule b rule p)
unfolding set_rule
set_rule-id none none p = gives refl
set_rule-id none (some r) p = >>=-Ensures (assert_valid_rule p.is_rule_based r) (λ _ _. gives refl)
set_rule-id (some b) r p = >>=-Ensures (assert_valid_rule b (given_rule r)) (λ _ _. gives refl)

pub set_name-id :
    (name : Option String) (p : Playlist)
    → Ensures (λ (q : Playlist). q.id ≡ p.id) (set_name name p)
unfolding set_name
set_name-id none p = gives refl
set_name-id (some s) p = elim (Bool-cases (str_eq (trim s) "")) [
  | inl e ↦ rw e throws
  | inr e ↦ rw e (gives refl)
]

save_playlist-Edited :
    (id user : String) (q : Playlist) (st : Store)
    → MayEdit user id st
    → str_eq id q.id ≡ true
    → Edited user id st (save_playlist q st)
unfolding save_playlist
save_playlist-Edited id user q st may e = record {
  may_edit = may;
  elsewhere = λ x h. record {
    playlists =
        let apart : str_eq q.id x ≡ false =
          ground (arith, eq_iff id q.id, eq_iff q.id x, eq_iff id x) in
        find_row-save_row_other (is_named q.id) (is_named x) q st.playlists
          (λ y. same_text q.id x y.id apart) (same_text id x q.id h e);
    songs = refl;
  };
  invites = λ x v. inr (inr refl);
}

pub update-Edited :
    (id user : String) (input : UpdatePlaylistInput) (st : Store)
    → Ensures (λ (r : Playlist × Store). Edited user id st r.1) (update id user input st)
unfolding update
update-Edited id user input st = >>=-Ensures (get_editable_playlist id user st) (λ p f.
    >>=-Ensures (set_name input.name p) (λ named f'.
      >>=-Ensures (set_rule input.is_rule_based input.rule (set_details input named))
        (λ changed f''.
          let (may, found) = get_editable_playlist-MayEdit id user st f in
          let fits = find_row_fits (is_named id) st.playlists p found in
          let e =
            Ensures-ok (set_rule-id input.is_rule_based input.rule (set_details input named)) f'' in
          let e' = Ensures-ok (set_name-id input.name p) f' in
          gives (
            save_playlist-Edited id user changed st may
              (ground (arith, fits, e, e', eq_iff id p.id, eq_iff id changed.id))))))

-- A change of the table of songs that leaves the songs of the others.
songs-Edited :
    (id user : String) (st : Store) (songs : List PlaylistSong)
    → MayEdit user id st
    → ((x : String) → str_eq id x ≡ false → entries x songs ≡ entries x st.songs)
    → Edited user id st (record st { songs = songs })
songs-Edited id user st songs may same = record {
  may_edit = may;
  elsewhere = λ x h. record { playlists = refl; songs = same x h };
  invites = λ x v. inr (inr refl);
}

unchanged-Edited : (id user : String) (st : Store) → MayEdit user id st → Edited user id st st
unchanged-Edited id user st may = record {
  may_edit = may;
  elsewhere = λ x h. record { playlists = refl; songs = refl };
  invites = λ x v. inr (inr refl);
}

-- The invitations to the other playlists stay.
remove_invites :
    (id user : String) (st : Store) (x v : String)
    → Owns user id st
    → Owns user x st
      ⊎ (find_row
            (is_invited x v)
            (delete_rows (λ (c : PlaylistCollaborator). str_eq id c.playlist_id) st.collaborators)
          ≡ find_row (is_invited x v) st.collaborators)
remove_invites id user st x v owns = elim (Bool-cases (str_eq id x)) [
  | inl h ↦ inl (subst (λ i. Owns user i st) ((eq_iff id x).0 h) owns)
  | inr h ↦ inr (
      find_row-delete_rows_other (λ (c : PlaylistCollaborator). str_eq id c.playlist_id)
        (is_invited x v) st.collaborators (λ y g. ground (arith, same_text id x y.playlist_id h g)))
]

pub remove-Edited :
    (id user : String) (st : Store) → Ensures (Edited user id st) (remove id user st)
unfolding remove entries
remove-Edited id user st = >>=-Ensures (get_owned_playlist id user st) (λ p f. gives (record {
  may_edit = Owns-MayEdit (get_owned_playlist-Owns id user st f);
  elsewhere = λ x h. record {
    playlists =
        find_row-delete_rows_other (is_named id) (is_named x) st.playlists
          (λ y. same_text id x y.id h);
    songs =
        select_rows-delete_rows_other (is_in id) (is_in x) st.songs
          (λ y. same_text id x y.playlist_id h);
  };
  invites = λ x v. elim (remove_invites id user st x v (get_owned_playlist-Owns id user st f)) [
    | inl o ↦ inl o
    | inr e ↦ inr (inr e)
  ];
}))

entries-append :
    (x : String) (songs : List PlaylistSong) (e : PlaylistSong)
    → is_in x e ≡ false
    → entries x (songs ++ e ∷ []) ≡ entries x songs
unfolding entries select_rows
entries-append x songs e h = select_rows-append (is_in x) songs (e ∷ []) ∙ rw h (append-nil _)

pub add_song-Edited :
    (catalogue : List CatalogueSong) (id user song : String) (st : Store)
    → Ensures
        (λ (r : PlaylistSong × Store). Edited user id st r.1)
        (add_song catalogue id user song st)
unfolding add_song
add_song-Edited catalogue id user song st = >>=-Ensures (get_editable_playlist id user st) (λ p f.
    let may = (get_editable_playlist-MayEdit id user st f).0 in
    refuse-Ensures p.is_rule_based _ (λ _.
      elim (Option-cases (find_row (λ (s : CatalogueSong). str_eq song s.id) catalogue)) [
        | inl e ↦ rw e throws
        | inr (s, e) ↦ elim (Option-cases (find_row (is_entry id song) st.songs)) [
          | inr (old, e') ↦ rw (e, e') (gives (unchanged-Edited id user st may))
          | inl e' ↦
              rw (e, e')
                (gives (
                  songs-Edited id user st _ may (λ x h.
                    entries-append x st.songs _ (ground (arith, h, eq_iff id x, eq_iff x id)))))
        ]
      ]))

pub remove_song-Edited :
    (id user song : String) (st : Store) → Ensures (Edited user id st) (remove_song id user song st)
unfolding remove_song entries
remove_song-Edited id user song st = >>=-Ensures (get_editable_playlist id user st) (λ p f.
    let may = (get_editable_playlist-MayEdit id user st f).0 in
    refuse-Ensures p.is_rule_based _ (λ _.
      elim (Option-cases (find_row (is_entry id song) st.songs)) [
        | inl e ↦ rw e throws
        | inr (old, e) ↦ rw e (
            gives (
              songs-Edited id user st _ may (λ x h.
                select_rows-delete_rows_other (is_entry id song) (is_in x) st.songs
                  (λ y g. same_text id x y.playlist_id h (ground (arith, g))))))
      ]))

entries-set_positions :
    (id x : String) (ids : List String) (n : ℕ) (songs : List PlaylistSong)
    → str_eq id x ≡ false
    → entries x (set_positions id ids n songs) ≡ entries x songs
unfolding entries set_positions
entries-set_positions id x [] n songs h = refl
entries-set_positions id x (s ∷ ids) n songs h =
    entries-set_positions id x ids (suc n) (set_position id s n songs) h
    ∙ select_rows-map_other (is_in x) _ songs (λ y. ground arith)
        (λ y g. ground (arith, h, g, eq_iff id x, eq_iff id y.playlist_id, eq_iff x y.playlist_id))

pub reordered-Edited :
    (id user : String) (ids : List String) (st : Store)
    → Ensures (Edited user id st) (reordered id user ids st)
unfolding reordered
reordered-Edited id user ids st = >>=-Ensures (get_editable_playlist id user st) (λ p f.
    let may = (get_editable_playlist-MayEdit id user st f).0 in
    refuse-Ensures p.is_rule_based _ (λ _. refuse-Ensures (is_empty ids) _ (λ _.
      refuse-Ensures (has_missing id ids st.songs) _ (λ _.
        gives
          (songs-Edited id user st _ may (λ x h. entries-set_positions id x ids 0 st.songs h))))))

move_entry-Edited :
    (id user song : String) (n : ℕ) (e : PlaylistSong) (st : Store)
    → MayEdit user id st
    → Edited user id st (move_entry id song n e st)
unfolding move_entry
move_entry-Edited id user song n e st may =
    elim (Bool-cases (min n (length (ordered_entries id st.songs) - 1) == e.position)) [
      | inl h ↦ rw h (unchanged-Edited id user st may)
      | inr h ↦ rw h (
          songs-Edited id user st _ may (λ x g.
            entries-set_positions id x
              (moved_order song (min n (length (ordered_entries id st.songs) - 1))
                (ordered_entries id st.songs))
              0 st.songs g))
    ]

pub moved-Edited :
    (id user song : String) (wanted : Number) (st : Store)
    → Ensures (Edited user id st) (moved id user song wanted st)
unfolding moved
moved-Edited id user song other st =
    >>=-Ensures (get_editable_playlist id user st)
      (λ p f. refuse-Ensures p.is_rule_based _ (λ _. throws))
moved-Edited id user song (integer n) st = >>=-Ensures (get_editable_playlist id user st) (λ p f.
    refuse-Ensures p.is_rule_based _ (λ _.
      elim (Option-cases
        (find_row (λ (e : PlaylistSong). str_eq song e.song_id) (ordered_entries id st.songs))) [
          | inl e ↦ rw e throws
          | inr (x, e) ↦ rw e (
              gives (
                move_entry-Edited id user song n x st
                  (get_editable_playlist-MayEdit id user st f).0))
        ]))
