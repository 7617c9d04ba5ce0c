-- ===== src/Playlists/Songs.antt =====
-- src/services/PlaylistService.ts: the songs of a playlist, as they are read, added, removed and put
-- in order. Where the database leaves the order of equal positions open, it is that of the table.
use audio_block_backend.Playlists.{
  Days, whole, fraction, negative, PlaylistRule, Playlist, PlaylistSong, PlaylistFollow, Store,
  Error, playlist_private, playlist_rule_based, song_not_found, playlist_song_not_found,
  playlist_reorder_invalid, find_playlist, can_read, is_found, get_editable_playlist, empty_rule,
}
use audio_block_backend.Base.{
  ℕ, suc, ◌+◌, ◌-◌, ◌*◌, min, max, Bool, true, false, not, ◌&&◌, ◌||◌, Option, none, some, List, [],
  ◌∷◌, ◌++◌, map, String, ltb, leb, ◌==◌, if◌then◌else◌, Outcome, ◌>>=◌, ◌>>◌, refuse, find_row,
  select_rows, delete_rows, count_rows, str_eq, or_else, length, take, drop, ok, err,
}

-- What the queries read of a song.
pub record CatalogueSong : Type 0 where
  pub id : String
  pub status : String
  pub flagged : Bool
  pub genre : Option String
  pub tags : List String
  pub created_at : ℕ

-- The playlist as it is answered, with its songs and the number of its followers.
pub record View : Type 0 where
  pub playlist : Playlist
  pub songs : List PlaylistSong
  pub follower_count : ℕ

-- The position that a client asks for, any number.
pub data Number : Type 0 where
  integer : ℕ → Number
  other : Number

abbrev pub is_in : String → PlaylistSong → Bool
is_in id e = str_eq id e.playlist_id

abbrev pub is_entry : String → String → PlaylistSong → Bool
is_entry id song e = str_eq id e.playlist_id && str_eq song e.song_id

-- `ORDER BY … ASC` and `DESC`, by a key.
module _ {A : Type 0} (key : A → ℕ) where
  unfoldable pub insert_ascending : A → List A → List A
  insert_ascending a [] = a ∷ []
  insert_ascending a (b ∷ rest) =
      if leb (key a) (key b) then a ∷ b ∷ rest else b ∷ insert_ascending a rest

  unfoldable pub ascending : List A → List A
  unfolding insert_ascending
  ascending [] = []
  ascending (a ∷ rest) = insert_ascending a (ascending rest)

  unfoldable pub insert_descending : A → List A → List A
  insert_descending a [] = a ∷ []
  insert_descending a (b ∷ rest) =
      if leb (key b) (key a) then a ∷ b ∷ rest else b ∷ insert_descending a rest

  unfoldable pub descending : List A → List A
  unfolding insert_descending
  descending [] = []
  descending (a ∷ rest) = insert_descending a (descending rest)

unfoldable pub contains : String → List String → Bool
contains s [] = false
contains s (t ∷ rest) = str_eq s t || contains s rest

abbrev pub genre_fits : Option (List String) → Option String → Bool
unfolding contains
genre_fits none genre = true
genre_fits (some []) genre = true
genre_fits (some (g ∷ rest)) none = false
genre_fits (some (g ∷ rest)) (some genre) = contains genre (g ∷ rest)

unfoldable pub shares_tag : List String → List String → Bool
unfolding contains
shares_tag [] wanted = false
shares_tag (t ∷ rest) wanted = contains t wanted || shares_tag rest wanted

abbrev pub tags_fit : Option (List String) → List String → Bool
unfolding shares_tag
tags_fit none tags = true
tags_fit (some []) tags = true
tags_fit (some (t ∷ rest)) tags = shares_tag tags (t ∷ rest)

abbrev pub day_ms : ℕ
day_ms = 86400000

-- The song is not older than the days before now.
abbrev pub age_fits : ℕ → Option Days → ℕ → Bool
age_fits now none created = true
age_fits now (some (whole n)) created = if ltb 0 n then leb now (created + n * day_ms) else true
age_fits now (some (fraction ms)) created = leb now (created + ms)
age_fits now (some negative) created = true

abbrev pub fits_rule : ℕ → PlaylistRule → CatalogueSong → Bool
fits_rule now rule s =
    str_eq s.status "ready"
    && not s.flagged
    && genre_fits rule.genres s.genre
    && tags_fit rule.tags s.tags
    && age_fits now rule.saved_within_days s.created_at

unfoldable pub number_songs : String → ℕ → List CatalogueSong → List PlaylistSong
number_songs id n [] = []
number_songs id n (s ∷ rest) =
    record { playlist_id = id; song_id = s.id; position = n } ∷ number_songs id (suc n) rest

unfoldable pub resolve_rule_songs : ℕ → List CatalogueSong → Playlist → List PlaylistSong
unfolding number_songs descending
resolve_rule_songs now catalogue p = number_songs p.id 0 (
    descending (λ (s : CatalogueSong). s.created_at)
      (select_rows (fits_rule now (or_else p.rule empty_rule)) catalogue))

unfoldable pub entries : String → List PlaylistSong → List PlaylistSong
entries id songs = select_rows (is_in id) songs

unfoldable pub ordered_entries : String → List PlaylistSong → List PlaylistSong
unfolding entries ascending
ordered_entries id songs = ascending (λ (e : PlaylistSong). e.position) (entries id songs)

unfoldable pub count_followers : String → Store → ℕ
count_followers id st = count_rows (λ (f : PlaylistFollow). str_eq id f.playlist_id) st.follows

unfoldable pub view_of : ℕ → List CatalogueSong → String → Playlist → Store → View
unfolding resolve_rule_songs ordered_entries count_followers
view_of now catalogue id p st = record {
  playlist = p;
  songs =
      if p.is_rule_based then resolve_rule_songs now catalogue p else ordered_entries id st.songs;
  follower_count = count_followers id st;
}

unfoldable pub get_by_id :
    ℕ → List CatalogueSong → String → Option String → Store → Outcome Error View
unfolding find_playlist can_read view_of
get_by_id now catalogue id reader st = do
  p ← find_playlist id st
  refuse (not (can_read p reader st)) playlist_private
  ok (view_of now catalogue id p st)

-- `(maximum ?? -1) + 1`
unfoldable pub next_position : List PlaylistSong → ℕ
next_position [] = 0
next_position (e ∷ rest) = max (suc e.position) (next_position rest)

unfoldable pub add_song :
    List CatalogueSong → String → String → String → Store → Outcome Error (PlaylistSong × Store)
unfolding get_editable_playlist entries next_position
add_song catalogue id user song st = do
  p ← get_editable_playlist id user st
  refuse p.is_rule_based playlist_rule_based
  elim (find_row (λ (s : CatalogueSong). str_eq song s.id) catalogue) [
    | none ↦ err song_not_found
    | some s ↦ elim (find_row (is_entry id song) st.songs) [
      | some existing ↦ ok (existing, st)
      | none ↦
          let e : PlaylistSong = record {
            playlist_id = id;
            song_id = song;
            position = next_position (entries id st.songs);
          } in
          ok (e, record st { songs = st.songs ++ e ∷ [] })
    ]
  ]

unfoldable pub remove_song : String → String → String → Store → Outcome Error Store
unfolding get_editable_playlist
remove_song id user song st = do
  p ← get_editable_playlist id user st
  refuse p.is_rule_based playlist_rule_based
  elim (find_row (is_entry id song) st.songs) [
    | none ↦ err playlist_song_not_found
    | some e ↦ ok (record st { songs = delete_rows (is_entry id song) st.songs })
  ]

abbrev pub set_position : String → String → ℕ → List PlaylistSong → List PlaylistSong
set_position id song n songs =
    map (λ (e : PlaylistSong). if is_entry id song e then record e { position = n } else e) songs

-- Each song in turn is given its index; a song that is named twice keeps the last.
unfoldable pub set_positions : String → List String → ℕ → List PlaylistSong → List PlaylistSong
set_positions id [] n songs = songs
set_positions id (s ∷ rest) n songs = set_positions id rest (suc n) (set_position id s n songs)

unfoldable pub has_missing : String → List String → List PlaylistSong → Bool
has_missing id [] songs = false
has_missing id (s ∷ rest) songs =
    not (is_found (find_row (is_entry id s) songs)) || has_missing id rest songs

abbrev pub is_empty : List String → Bool
is_empty [] = true
is_empty (s ∷ rest) = false

unfoldable pub reordered : String → String → List String → Store → Outcome Error Store
unfolding get_editable_playlist has_missing set_positions
reordered id user ids st = do
  p ← get_editable_playlist id user st
  refuse p.is_rule_based playlist_rule_based
  refuse (is_empty ids) playlist_reorder_invalid
  refuse (has_missing id ids st.songs) playlist_song_not_found
  ok (record st { songs = set_positions id ids 0 st.songs })

-- The answer is read after the change.
unfoldable pub reorder :
    ℕ
    → List CatalogueSong
    → String
    → String
    → List String
    → Store
    → Outcome Error (Outcome Error View × Store)
unfolding reordered get_by_id
reorder now catalogue id user ids st = do
  st' ← reordered id user ids st
  ok (get_by_id now catalogue id (some user) st', st')

abbrev pub splice : ℕ → String → List String → List String
splice n s ids = take n ids ++ s ∷ drop n ids

-- The songs in order, with one taken out and put in at an index.
unfoldable pub moved_order : String → ℕ → List PlaylistSong → List String
moved_order song target ordered = splice target song (
    map (λ (e : PlaylistSong). e.song_id)
      (delete_rows (λ (e : PlaylistSong). str_eq song e.song_id) ordered))

unfoldable pub move_entry : String → String → ℕ → PlaylistSong → Store → Store
unfolding ordered_entries moved_order set_positions
move_entry id song wanted e st =
    let ordered = ordered_entries id st.songs in
    let target = min wanted (length ordered - 1) in
    if target == e.position
    then st
    else record st { songs = set_positions id (moved_order song target ordered) 0 st.songs }

unfoldable pub moved : String → String → String → Number → Store → Outcome Error Store
unfolding get_editable_playlist move_entry ordered_entries
moved id user song wanted st = do
  p ← get_editable_playlist id user st
  refuse p.is_rule_based playlist_rule_based
  elim wanted [
    | other ↦ err playlist_reorder_invalid
    | integer n ↦
        elim (find_row (λ (e : PlaylistSong). str_eq song e.song_id)
          (ordered_entries id st.songs)) [
            | none ↦ err playlist_song_not_found
            | some e ↦ ok (move_entry id song n e st)
          ]
  ]

unfoldable pub move_song :
    ℕ
    → List CatalogueSong
    → String
    → String
    → String
    → Number
    → Store
    → Outcome Error (Outcome Error View × Store)
unfolding moved get_by_id
move_song now catalogue id user song wanted st = do
  st' ← moved id user song wanted st
  ok (get_by_id now catalogue id (some user) st', st')
