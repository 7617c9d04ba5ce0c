-- ===== src/Playlists/Orders.antt =====
-- The orders of src/services/PlaylistService.ts: songs sorted by position, and one song spliced in
-- elsewhere.
use audio_block_backend.Playlists.{PlaylistSong}
use audio_block_backend.Playlists.Songs.{
  insert_ascending, ascending, is_entry, entries, ordered_entries, splice, moved_order,
}
use audio_block_backend.Playlists.Positions.{occurs}
use audio_block_backend.Base.{
  ℕ, zero, suc, ◌+◌, ◌≤◌, ◌<◌, ◌≡◌, refl, sym, ap, ◌∙◌, subst, inl, inr, Bool, false, some, List,
  [], ◌∷◌, map, arith, String, eq_iff, if◌then◌else◌, Bool-cases, select_rows, delete_rows,
  count_rows, str_eq, length, get_elem?, length-map,
}

module _ {A : Type 0} (key : A → ℕ) where
  count_rows-insert_ascending :
      (p : A → Bool) (a : A) (rows : List A)
      → count_rows p (insert_ascending key a rows) ≡ count_rows p (a ∷ rows)
  unfolding count_rows insert_ascending
  count_rows-insert_ascending p a [] = refl
  count_rows-insert_ascending p a (b ∷ rows) = ground (arith, count_rows-insert_ascending p a rows)

  pub count_rows-ascending :
      (p : A → Bool) (rows : List A) → count_rows p (ascending key rows) ≡ count_rows p rows
  unfolding count_rows ascending
  count_rows-ascending p [] = refl
  count_rows-ascending p (a ∷ rows) =
      count_rows-insert_ascending p a (ascending key rows)
      ∙ ground (arith, count_rows-ascending p rows)

abbrev pub song_ids : List PlaylistSong → List String
song_ids rows = map (λ (e : PlaylistSong). e.song_id) rows

abbrev pub is_song : String → PlaylistSong → Bool
is_song s e = str_eq s e.song_id

pub occurs-song_ids :
    (s : String) (rows : List PlaylistSong) → occurs s (song_ids rows) ≡ count_rows (is_song s) rows
unfolding occurs count_rows
occurs-song_ids s [] = refl
occurs-song_ids s (e ∷ rows) = ground (arith, occurs-song_ids s rows)

pub count_rows-entries :
    (id s : String) (songs : List PlaylistSong)
    → count_rows (is_song s) (entries id songs) ≡ count_rows (is_entry id s) songs
unfolding count_rows entries select_rows
count_rows-entries id s [] = refl
count_rows-entries id s (e ∷ songs) = ground (arith, count_rows-entries id s songs)

pub count_rows-ordered_entries :
    (id s : String) (songs : List PlaylistSong)
    → count_rows (is_song s) (ordered_entries id songs) ≡ count_rows (is_entry id s) songs
unfolding ordered_entries
count_rows-ordered_entries id s songs =
    count_rows-ascending (λ (e : PlaylistSong). e.position) (is_song s) (entries id songs)
    ∙ count_rows-entries id s songs

-- A list of songs without one.
pub without : String → List String → List String
without s [] = []
without s (t ∷ rest) = let rest' = without s rest in if str_eq s t then rest' else t ∷ rest'

pub song_ids-delete_rows :
    (s : String) (rows : List PlaylistSong)
    → song_ids (delete_rows (is_song s) rows) ≡ without s (song_ids rows)
unfolding delete_rows without
song_ids-delete_rows s [] = refl
song_ids-delete_rows s (e ∷ rows) = elim (Bool-cases (str_eq s e.song_id)) [
  | inl h ↦ rw (h, song_ids-delete_rows s rows)
  | inr h ↦ rw (h, song_ids-delete_rows s rows)
]

without-absent : (s : String) (ids : List String) → occurs s ids ≡ 0 → without s ids ≡ ids
unfolding without occurs
without-absent s [] h = refl
without-absent s (t ∷ ids) h = ground (arith, without-absent s ids)

occurs-without_self : (s : String) (ids : List String) → occurs s (without s ids) ≡ 0
unfolding without occurs
occurs-without_self s [] = refl
occurs-without_self s (t ∷ ids) = ground (arith, occurs-without_self s ids)

occurs-without_other :
    (s t : String) (ids : List String)
    → str_eq t s ≡ false
    → occurs t (without s ids) ≡ occurs t ids
unfolding without occurs
occurs-without_other s t [] h = refl
occurs-without_other s t (u ∷ ids) h =
    ground (arith, occurs-without_other s t ids h, eq_iff t s, eq_iff s u, eq_iff t u)

occurs-splice :
    (t : String) (n : ℕ) (s : String) (ids : List String)
    → occurs t (splice n s ids) ≡ occurs t (s ∷ ids)
unfolding occurs
occurs-splice t zero s ids = refl
occurs-splice t (suc n) s [] = refl
occurs-splice t (suc n) s (u ∷ ids) = ground (arith, occurs-splice t n s ids)

without-splice :
    (n : ℕ) (s : String) (ids : List String) → occurs s ids ≡ 0 → without s (splice n s ids) ≡ ids
unfolding without occurs
without-splice zero s ids h = ground (arith, without-absent s ids h, eq_iff s s)
without-splice (suc n) s [] h = ground (arith, eq_iff s s)
without-splice (suc n) s (u ∷ ids) h = ground (arith, without-splice n s ids)

get_elem?-splice :
    (n : ℕ) (s : String) (ids : List String)
    → n ≤ length ids
    → get_elem? (splice n s ids) n ≡ some s
get_elem?-splice zero s ids h = refl
get_elem?-splice (suc n) s [] h = absurd (omega arith)
get_elem?-splice (suc n) s (u ∷ ids) h = get_elem?-splice n s ids (omega arith)

length-without :
    (s : String) (ids : List String) → length (without s ids) + occurs s ids ≡ length ids
unfolding without occurs
length-without s [] = refl
length-without s (t ∷ ids) = ground (arith, length-without s ids)

-- An order with one song at another place.
pub record MovedTo (s : String) (n : ℕ) (before after : List String) : Type 0 where
  pub at : get_elem? after n ≡ some s
  pub others : without s after ≡ without s before
  pub same_songs : (t : String) → occurs t after ≡ occurs t before

splice-MovedTo :
    (s : String) (n : ℕ) (ids : List String)
    → occurs s ids ≡ 1
    → n < length ids
    → MovedTo s n ids (splice n s (without s ids))
unfolding occurs
splice-MovedTo s n ids once h = record {
  at = get_elem?-splice n s (without s ids) (omega (arith, length-without s ids));
  others = without-splice n s (without s ids) (occurs-without_self s ids);
  same_songs = λ t. occurs-splice t n s (without s ids) ∙ elim (Bool-cases (str_eq t s)) [
    | inl e ↦
        let same = (eq_iff t s).0 e in
        let all : occurs t ids ≡ 1 = ap (λ x. occurs x ids) same ∙ once in
        let rest : occurs t (without s ids) ≡ 0 =
          ap (λ x. occurs x (without s ids)) same ∙ occurs-without_self s ids in
        ground (arith, e, all, rest)
    | inr e ↦ ground (arith, e, occurs-without_other s t ids e)
  ];
}

pub moved_order-MovedTo :
    (s : String) (n : ℕ) (ordered : List PlaylistSong)
    → occurs s (song_ids ordered) ≡ 1
    → n < length ordered
    → MovedTo s n (song_ids ordered) (moved_order s n ordered)
unfolding moved_order
moved_order-MovedTo s n ordered once h =
    subst (λ x. MovedTo s n (song_ids ordered) (splice n s x))
      (sym (song_ids-delete_rows s ordered))
      (splice-MovedTo s n (song_ids ordered) once
        (omega (arith, length-map ordered (λ (e : PlaylistSong). e.song_id))))
