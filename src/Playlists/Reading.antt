-- ===== src/Playlists/Reading.antt =====
-- src/services/PlaylistService.ts: who may read a playlist, and what a change of its order answers.
use audio_block_backend.Playlists.{
  Playlist, PlaylistSong, PlaylistCollaborator, Store, Error, is_named, is_invited, is_editor,
  is_found, is_collaborator, is_editor_collaborator, can_read, find_playlist, get_editable_playlist,
}
use audio_block_backend.Playlists.Songs.{
  CatalogueSong, View, is_entry, get_by_id, view_of, set_positions, has_missing, is_empty,
  reordered, reorder,
}
use audio_block_backend.Playlists.Access.{
  MayEdit, find_playlist-eq-ok, get_editable_playlist-MayEdit,
}
use audio_block_backend.Playlists.Positions.{occurs}
use audio_block_backend.Playlists.Orders.{song_ids}
use audio_block_backend.Playlists.Refine.{order_of, Unique, order_of-set_positions}
use audio_block_backend.Base.{
  ℕ, ◌≡◌, refl, sym, ap, ◌∙◌, subst, ◌≢◌, ◌↔◌, ◌⊎◌, inl, inr, Bool, true, false, ◌&&◌, ◌||◌, Option,
  none, some, List, [], ◌∷◌, arith, String, eq_iff, Bool-cases, some_unique, Outcome, >>=-ok_inv,
  >>=-Ensures, refuse-Ensures, Ensures-ok, find_row, count_rows, find_row_fits, str_eq, ok, gives,
}

-- It is public, the reader's own, or one that the reader is invited to.
abbrev pub Allowed : String → Option String → Playlist → Store → Type 0
Allowed id reader p st =
    (p.is_public ≡ true)
    ⊎ ((user : String) × (reader ≡ some user)
        × (user ≢ "")
        × ((p.user_id ≡ user) ⊎ (is_found (find_row (is_invited id user) st.collaborators) ≡ true)))

pub record Readable (id : String) (reader : Option String) (st : Store) : Type 0 where
  pub playlist : Playlist
  pub found : find_row (is_named id) st.playlists ≡ some playlist
  pub allowed : Allowed id reader playlist st

is_named_id : (id : String) (p : Playlist) → is_named id p ≡ true → id ≡ p.id
is_named_id id p h = (eq_iff id p.id).0 h

can_read-allowed :
    (id : String) (p : Playlist) (reader : Option String) (st : Store)
    → id ≡ p.id
    → can_read p reader st ≡ true
    → (p.is_public ≡ true)
      ⊎ ((user : String) × (reader ≡ some user)
          × (user ≢ "")
          × ((p.user_id ≡ user)
              ⊎ (is_found (find_row (is_invited id user) st.collaborators) ≡ true)))
unfolding can_read is_collaborator
can_read-allowed id p none st same h = inl (ground (arith, h))
can_read-allowed id p (some user) st same h = elim (Bool-cases p.is_public) [
  | inl e ↦ inl e
  | inr e ↦ inr (
    user,
    refl,
    (λ empty. absurd (ground (arith, h, e, empty, eq_iff user ""))),
    (elim (Bool-cases (str_eq p.user_id user)) [
      | inl f ↦ inl ((eq_iff p.user_id user).0 f)
      | inr f ↦ inr (
          ap (λ k. is_found (find_row (is_invited k user) st.collaborators)) same
          ∙ ground (arith, h, e, f))
    ]),
  )
]

allowed-can_read :
    (id : String) (p : Playlist) (reader : Option String) (st : Store)
    → id ≡ p.id
    → (p.is_public ≡ true)
      ⊎ ((user : String) × (reader ≡ some user)
          × (user ≢ "")
          × ((p.user_id ≡ user)
              ⊎ (is_found (find_row (is_invited id user) st.collaborators) ≡ true)))
    → can_read p reader st ≡ true
unfolding can_read
allowed-can_read id p reader st same (inl e) = rw e refl
allowed-can_read id p reader st same (inr (user, e, given, inl mine)) =
    rw e (ground (arith, given, mine, eq_iff user "", eq_iff p.user_id user))
allowed-can_read id p reader st same (inr (user, e, given, inr guest)) =
    let here : is_collaborator p.id user st ≡ true =
      unfold is_collaborator in
      ap (λ k. is_found (find_row (is_invited k user) st.collaborators)) (sym same) ∙ guest in
    rw e (ground (arith, given, here, eq_iff user ""))

found_id :
    (id : String) (st : Store) {p : Playlist}
    → find_row (is_named id) st.playlists ≡ some p
    → id ≡ p.id
found_id id st {p} e = is_named_id id p (find_row_fits (is_named id) st.playlists p e)

-- A playlist is answered just to those who may read it.
pub get_by_id-Readable :
    (now : ℕ) (catalogue : List CatalogueSong) (id : String) (reader : Option String) (st : Store)
    → ((v : View) × (get_by_id now catalogue id reader st ≡ ok v)) ↔ Readable id reader st
unfolding get_by_id find_playlist
get_by_id-Readable now catalogue id reader st = (
  λ w.
      let (p, f, g) = >>=-ok_inv (find_playlist id st) w.1 in
      let found = find_playlist-eq-ok id st f in
      record {
        playlist = p;
        found = found;
        allowed = can_read-allowed id p reader st (found_id id st found) (ground arith);
      },
  λ r.
      let e : find_playlist id st ≡ ok r.playlist = rw (r.found, find_playlist) refl in
      let may = allowed-can_read id r.playlist reader st (found_id id st r.found) r.allowed in
      (view_of now catalogue id r.playlist st, rw (e, may, get_by_id) refl),
)

weaker_found :
    (p q : PlaylistCollaborator → Bool) (rows : List PlaylistCollaborator)
    → ((x : PlaylistCollaborator) → q x ≡ true → p x ≡ true)
    → is_found (find_row q rows) ≡ true
    → is_found (find_row p rows) ≡ true
unfolding find_row
weaker_found p q [] weak h = h
weaker_found p q (x ∷ rows) weak h = elim (Bool-cases (p x)) [
  | inl e ↦ rw e refl
  | inr e ↦ elim (Bool-cases (q x)) [
    | inl f ↦ absurd (ground (arith, e, f, weak x f))
    | inr f ↦ rw e (weaker_found p q rows weak (rw f at h))
  ]
]

editor-Allowed :
    (id user : String) (st : Store) (m : MayEdit user id st)
    → user ≢ ""
    → Allowed id (some user) m.playlist st
unfolding is_editor_collaborator
editor-Allowed id user st m given = inr (
  user,
  refl,
  given,
  (elim (Bool-cases (str_eq m.playlist.user_id user)) [
    | inl e ↦ inl ((eq_iff m.playlist.user_id user).0 e)
    | inr e ↦ inr (
        weaker_found (is_invited id user)
          (λ (c : PlaylistCollaborator). is_invited id user c && is_editor c.role) st.collaborators
          (λ x h. ground (arith, h)) (ground (arith, m.allowed, e)))
  ]),
)

-- What a reorder that is answered has gone through.
reordered_lem :
    (id user : String) (ids : List String) (st : Store) {st' : Store}
    → reordered id user ids st ≡ ok st'
    → (p : Playlist) × (get_editable_playlist id user st ≡ ok p)
      × (p.is_rule_based ≡ false)
      × (st' ≡ record st { songs = set_positions id ids 0 st.songs })
unfolding reordered
reordered_lem id user ids st e =
    Ensures-ok
      {P = λ (x : Store).
        (p : Playlist) × (get_editable_playlist id user st ≡ ok p)
        × (p.is_rule_based ≡ false)
        × (x ≡ record st { songs = set_positions id ids 0 st.songs })}
      (>>=-Ensures (get_editable_playlist id user st) (λ p f.
        refuse-Ensures p.is_rule_based _ (λ manual.
          refuse-Ensures (is_empty ids) _ (λ _.
            refuse-Ensures (has_missing id ids st.songs) _ (λ g. gives (p, f, manual, refl))))))
      e

-- The answer to an editor after a change of the songs alone.
editor_view :
    (now : ℕ) (catalogue : List CatalogueSong) (id user : String) (songs : List PlaylistSong)
    (st : Store) (p : Playlist)
    → get_editable_playlist id user st ≡ ok p
    → p.is_rule_based ≡ false
    → user ≢ ""
    → (v : View) × (get_by_id now catalogue id (some user) (record st { songs = songs }) ≡ ok v)
      × (song_ids v.songs ≡ order_of id songs)
unfolding view_of order_of find_playlist get_by_id
editor_view now catalogue id user songs st p f manual given =
    let (may, found) = get_editable_playlist-MayEdit id user st f in
    let st' : Store = record st { songs = songs } in
    let allowed : (str_eq p.user_id user || is_editor_collaborator id user st') ≡ true =
      unfold is_editor_collaborator in
      subst (λ (x : Playlist). (str_eq x.user_id user || is_editor_collaborator id user st') ≡ true)
        (some_unique _ may.found found) may.allowed in
    let m : MayEdit user id st' = record { playlist = p; found = found; allowed = allowed } in
    let e : find_playlist id st' ≡ ok p = rw (found, find_playlist) refl in
    let reads =
      allowed-can_read id p (some user) st' (found_id id st found)
        (editor-Allowed id user st' m given) in
    (view_of now catalogue id p st', rw (e, reads, get_by_id) refl, rw manual refl)

-- A reorder by an editor that names every song is answered by the playlist with the songs in the
-- order that is asked for.
pub reorder-view :
    (now : ℕ) (catalogue : List CatalogueSong) (id user : String) (ids : List String) (st : Store)
    {o : Outcome Error View} {st' : Store}
    → Unique id st.songs
    → ((t : String) → occurs t ids ≡ count_rows (is_entry id t) st.songs)
    → user ≢ ""
    → reorder now catalogue id user ids st ≡ ok (o, st')
    → (v : View) × (o ≡ ok v) × (song_ids v.songs ≡ ids)
unfolding reorder
reorder-view now catalogue id user ids st {o} {st'} once all given e =
    let (st'', f, g) = >>=-ok_inv (reordered id user ids st) e in
    let (p, may, manual, same) = reordered_lem id user ids st f in
    let (v, h, k) =
      editor_view now catalogue id user (set_positions id ids 0 st.songs) st p may manual given in
    let answer : get_by_id now catalogue id (some user) st'' ≡ o = ground (arith, g) in
    (
      v,
      sym answer ∙ ap (get_by_id now catalogue id (some user)) same ∙ h,
      k ∙ order_of-set_positions id ids st.songs once all,
    )
