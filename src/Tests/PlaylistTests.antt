-- ===== src/Tests/PlaylistTests.antt =====
-- src/services/PlaylistService.ts: a playlist of three songs, with its owner and an editor.
use audio_block_backend.Playlists.{
  whole, Playlist, PlaylistSong, editor, Store, CreatePlaylistInput, not_playlist_editor,
  get_editable_playlist, get_readable_playlist, create, trimmed, assert_valid_rule,
}
use audio_block_backend.Playlists.Songs.{
  CatalogueSong, View, is_entry, integer, add_song, remove_song, reordered, reorder, moved,
  get_by_id, entries, next_position, has_missing, set_positions, ordered_entries, move_entry,
  moved_order,
}
use audio_block_backend.Playlists.Sharing.{follow_playlist}
use audio_block_backend.Playlists.Calls.{drops, run}
use audio_block_backend.Playlists.Permission.{Kept, run-Kept}
use audio_block_backend.Playlists.Positions.{
  occurs, position_of, is_placed, Reordered, reordered-Reordered,
}
use audio_block_backend.Playlists.Orders.{MovedTo, without, song_ids}
use audio_block_backend.Playlists.Refine.{order_of, Unique}
use audio_block_backend.Playlists.Listed.{add_song-order, remove_song-order}
use audio_block_backend.Playlists.Moves.{Moved, moved-Moved, IsCompact, target_of, moved_compact}
use audio_block_backend.Playlists.Reading.{Readable, get_by_id-Readable, reorder-view}
use audio_block_backend.Playlists.Follows.{Followed, follow_playlist-Followed, remove_song-add_song}
use audio_block_backend.Pages.{page_of, first_pages, pages_cover}
use audio_block_backend.Playlists.Once.{Sound}
use audio_block_backend.Playlists.Runs.{begin, creates, reached-Sound}
use audio_block_backend.Base.{
  ℕ, zero, suc, ◌≤◌, ◌<◌, ◌≡◌, refl, sym, subst, ◌↔◌, inl, inr, true, false, none, some, List, [],
  ◌∷◌, ◌++◌, arith, String, eq_iff, if◌then◌else◌, Bool-cases, find_row, select_rows, delete_rows,
  count_rows, str_eq, ok, err,
}

abbrev mix : Playlist
mix = record {
  id = "p";
  user_id = "owner";
  name = "mix";
  description = none;
  is_public = false;
  cover_image_url = none;
  is_rule_based = false;
  rule = none;
}

abbrev entry : String → ℕ → PlaylistSong
entry song n = record { playlist_id = "p"; song_id = song; position = n }

abbrev three : Store
three = record {
  playlists = mix ∷ [];
  songs = entry "a" 0 ∷ entry "b" 1 ∷ entry "c" 2 ∷ [];
  collaborators = record { playlist_id = "p"; user_id = "helper"; role = editor } ∷ [];
  follows = [];
}

-- The first song is gone, and the positions of the others are left.
abbrev two : Store
two = record three { songs = entry "b" 1 ∷ entry "c" 2 ∷ [] }

abbrev catalogue : List CatalogueSong
catalogue =
    record { id = "d"; status = "ready"; flagged = false; genre = none; tags = []; created_at = 5 }
    ∷ []

remove_test : remove_song "p" "helper" "a" three ≡ ok two
unfolding remove_song get_editable_playlist find_row delete_rows
remove_test = refl

stranger_test : remove_song "p" "other" "a" three ≡ err not_playlist_editor
unfolding remove_song get_editable_playlist find_row
stranger_test = refl

two-Unique : Unique "p" two.songs
unfolding count_rows
two-Unique s = elim (Bool-cases (str_eq s "b")) [
  | inl e ↦
      subst (λ x. count_rows (is_entry "p" x) two.songs ≤ 1) (sym ((eq_iff s "b").0 e))
        (omega arith)
  | inr e ↦ rw (e, count_rows) (ground arith)
]

three-Unique : Unique "p" three.songs
unfolding count_rows
three-Unique s = elim (Bool-cases (str_eq s "a")) [
  | inl e ↦
      subst (λ x. count_rows (is_entry "p" x) three.songs ≤ 1) (sym ((eq_iff s "a").0 e))
        (omega arith)
  | inr e ↦ rw (e, count_rows) (two-Unique s)
]

run-Kept_example : Kept "helper" three two
run-Kept_example = run-Kept (drops "p" "helper" "a") three (unfold run in remove_test)

-- The song with the position 1 stands first, and stays there.
gap_test : moved "p" "owner" "b" (integer 1) two ≡ ok two
unfolding moved get_editable_playlist find_row ordered_entries select_rows entries move_entry
gap_test = refl

moved-Moved_example : Moved "p" "b" 1 two.songs two.songs
moved-Moved_example = moved-Moved "p" "owner" "b" 1 two two-Unique gap_test

remove_song-order_test : order_of "p" two.songs ≡ without "a" (order_of "p" three.songs)
remove_song-order_test = remove_song-order "p" "helper" "a" three remove_test

pages_cover_example :
    first_pages {A = ℕ} (page_of {A = ℕ} 1 2 (1 ∷ 2 ∷ 3 ∷ [])).total_pages 2 (1 ∷ 2 ∷ 3 ∷ [])
    ≡ 1 ∷ 2 ∷ 3 ∷ []
pages_cover_example = pages_cover {A = ℕ} 2 (1 ∷ 2 ∷ 3 ∷ [])

get_by_id-Readable_example :
    ((v : View) × (get_by_id 0 catalogue "p" (some "owner") three ≡ ok v))
    ↔ Readable "p" (some "owner") three
get_by_id-Readable_example = get_by_id-Readable 0 catalogue "p" (some "owner") three

three-IsCompact : IsCompact "p" three.songs
unfolding order_of ordered_entries entries select_rows position_of find_row
three-IsCompact zero s e =
    let same : "a" ≡ s = ground (arith, e) in
    subst (λ x. position_of "p" x three.songs ≡ some 0) same refl
three-IsCompact (suc zero) s e =
    let same : "b" ≡ s = ground (arith, e) in
    subst (λ x. position_of "p" x three.songs ≡ some 1) same refl
three-IsCompact (suc (suc zero)) s e =
    let same : "c" ≡ s = ground (arith, e) in
    subst (λ x. position_of "p" x three.songs ≡ some 2) same refl
three-IsCompact (suc (suc (suc n))) s e = cc

-- The last song goes to the front.
abbrev turned : Store
turned = record three { songs = entry "a" 1 ∷ entry "b" 2 ∷ entry "c" 0 ∷ [] }

turn_test : moved "p" "helper" "c" (integer 0) three ≡ ok turned
unfolding moved get_editable_playlist find_row ordered_entries select_rows entries move_entry
    moved_order set_positions delete_rows
turn_test = refl

c_occurs : 0 < occurs "c" (order_of "p" three.songs)
unfolding occurs order_of ordered_entries entries select_rows
c_occurs = omega arith

moved_compact_test :
    MovedTo "c" (target_of "p" 0 three.songs) (order_of "p" three.songs) (order_of "p" turned.songs)
moved_compact_test =
    moved_compact "p" "helper" "c" 0 three three-Unique three-IsCompact c_occurs turn_test

abbrev longer : Store
longer = record three { songs = entry "a" 0 ∷ entry "b" 1 ∷ entry "c" 2 ∷ entry "d" 3 ∷ [] }

add_test : add_song catalogue "p" "owner" "d" three ≡ ok (entry "d" 3, longer)
unfolding add_song get_editable_playlist find_row entries select_rows next_position
add_test = refl

absent_test : is_placed "p" "d" three.songs ≡ false
unfolding is_placed find_row
absent_test = refl

add_song-order_test : order_of "p" longer.songs ≡ (
    if is_placed "p" "d" three.songs
    then order_of "p" three.songs
    else order_of "p" three.songs ++ "d" ∷ [])
add_song-order_test = add_song-order catalogue "p" "owner" "d" three add_test

remove_song-add_song_example : remove_song "p" "owner" "d" longer ≡ ok three
remove_song-add_song_example =
    remove_song-add_song catalogue "p" "owner" "d" three absent_test add_test

-- A request that leaves out a song: two songs share the first position.
abbrev shared : Store
shared = record three { songs = entry "a" 0 ∷ entry "b" 1 ∷ entry "c" 0 ∷ [] }

partial_test : reordered "p" "owner" ("c" ∷ []) three ≡ ok shared
unfolding reordered get_editable_playlist find_row has_missing set_positions
partial_test = refl

partial_order_test : Reordered "p" ("c" ∷ []) three.songs shared.songs
partial_order_test = reordered-Reordered "p" "owner" ("c" ∷ []) three partial_test

all_three : (t : String) → occurs t ("c" ∷ "a" ∷ "b" ∷ []) ≡ count_rows (is_entry "p" t) three.songs
unfolding occurs count_rows
all_three t = elim (Bool-cases (str_eq t "a")) [
  | inl a ↦ elim (Bool-cases (str_eq t "b")) [
    | inl b ↦ elim (Bool-cases (str_eq t "c")) [
      | inl c ↦ rw (a, b, c) refl
      | inr c ↦ rw (a, b, c) refl
    ]
    | inr b ↦ elim (Bool-cases (str_eq t "c")) [
      | inl c ↦ rw (a, b, c) refl
      | inr c ↦ rw (a, b, c) refl
    ]
  ]
  | inr a ↦ elim (Bool-cases (str_eq t "b")) [
    | inl b ↦ elim (Bool-cases (str_eq t "c")) [
      | inl c ↦ rw (a, b, c) refl
      | inr c ↦ rw (a, b, c) refl
    ]
    | inr b ↦ elim (Bool-cases (str_eq t "c")) [
      | inl c ↦ rw (a, b, c) refl
      | inr c ↦ rw (a, b, c) refl
    ]
  ]
]

reorder_test :
    reorder 0 catalogue "p" "owner" ("c" ∷ "a" ∷ "b" ∷ []) three
    ≡ ok (get_by_id 0 catalogue "p" (some "owner") turned, turned)
unfolding reorder reordered get_editable_playlist find_row has_missing set_positions
reorder_test = refl

reorder-view_example :
    (v : View) × (get_by_id 0 catalogue "p" (some "owner") turned ≡ ok v)
    × (song_ids v.songs ≡ "c" ∷ "a" ∷ "b" ∷ [])
reorder-view_example =
    reorder-view 0 catalogue "p" "owner" ("c" ∷ "a" ∷ "b" ∷ []) three three-Unique all_three
      (λ e. ground (arith, e, eq_iff "owner" "")) reorder_test

abbrev open_three : Store
open_three = record three { playlists = record mix { is_public = true } ∷ [] }

abbrev followed : Store
followed = record open_three { follows = record { user_id = "fan"; playlist_id = "p" } ∷ [] }

follow_test : follow_playlist "fan" "p" open_three ≡ ok ((true, 1), followed)
unfolding follow_playlist get_readable_playlist find_row count_rows
follow_test = refl

follow_playlist-Followed_test : Followed "fan" "p" open_three ((true, 1), followed)
follow_playlist-Followed_test = follow_playlist-Followed "fan" "p" open_three follow_test

abbrev smart : CreatePlaylistInput
smart = record {
  name = some " new ";
  description = none;
  is_public = none;
  cover_image_url = none;
  is_rule_based = some true;
  rule = some (record { tags = none; genres = none; saved_within_days = some (whole 7) });
}

abbrev nothing : Store
nothing = record { playlists = []; songs = []; collaborators = []; follows = [] }

abbrev made : Playlist
made = record {
  id = "q";
  user_id = "owner";
  name = "new";
  description = none;
  is_public = true;
  cover_image_url = none;
  is_rule_based = true;
  rule = some (record { tags = none; genres = none; saved_within_days = some (whole 7) });
}

create_test : create "q" "owner" smart nothing ≡ ok (made, record nothing { playlists = made ∷ [] })
unfolding create trimmed assert_valid_rule
create_test = refl

reached-Sound_example : Sound (record nothing { playlists = made ∷ [] })
reached-Sound_example = reached-Sound (creates begin "q" "owner" smart create_test)
