-- ===== src/Playlists/Rules.antt =====
-- src/services/PlaylistService.ts: a playlist that is resolved by a rule has a valid one.
use audio_block_backend.Playlists.{
  PlaylistRule, Playlist, Store, CreatePlaylistInput, UpdatePlaylistInput, is_named, empty_rule,
  has_criteria, is_improper, assert_valid_rule, trimmed, create, set_name, set_details, set_rule,
  save_playlist, get_editable_playlist, update,
}
use audio_block_backend.Playlists.Access.{get_editable_playlist-MayEdit}
use audio_block_backend.Base.{
  ◌≡◌, refl, ◌∙◌, inl, inr, Bool, true, false, not, ◌&&◌, Option, none, some, List, arith, String,
  Bool-cases, Option-cases, Ensures, >>=-Ensures, Ensures-ok, save_row, count_rows,
  count_rows-append, count_rows-save_row, find_row-uncounted, str_eq, or_else, trim, gives, throws,
}

-- Some criterion, and a whole number of days where there is one.
abbrev pub is_valid : PlaylistRule → Bool
is_valid r = has_criteria r && not (is_improper r.saved_within_days)

abbrev pub is_unruly : Playlist → Bool
is_unruly p = p.is_rule_based && not (is_valid (or_else p.rule empty_rule))

abbrev pub Ruled : List Playlist → Type 0
Ruled playlists = count_rows is_unruly playlists ≡ 0

-- A change of the table of playlists alone, which keeps the rules valid.
unfoldable pub KeepsRules : Store → Store → Type 0
KeepsRules st st' = (rows : List Playlist) × (st' ≡ record st { playlists = rows }) × Ruled rows

assert_valid_rule-is_valid :
    (rule : Option PlaylistRule)
    → Ensures
        (λ (u : Unit {0}). is_valid (or_else rule empty_rule) ≡ true)
        (assert_valid_rule true rule)
unfolding assert_valid_rule
assert_valid_rule-is_valid rule =
    let r = or_else rule empty_rule in
    elim (Bool-cases (has_criteria r)) [
      | inr e ↦ rw e throws
      | inl e ↦ elim (Bool-cases (is_improper r.saved_within_days)) [
        | inl f ↦ rw (e, f) throws
        | inr f ↦ rw (e, f) (gives refl)
      ]
    ]

set_rule-is_valid :
    (b : Option Bool) (rule : Option (Option PlaylistRule)) (p : Playlist)
    → is_unruly p ≡ false
    → Ensures (λ (q : Playlist). is_unruly q ≡ false) (set_rule b rule p)
unfolding set_rule assert_valid_rule
set_rule-is_valid none none p h = gives h
set_rule-is_valid none (some r) p h = elim (Bool-cases p.is_rule_based) [
  | inr e ↦ rw e (gives refl)
  | inl e ↦ rw e (
      >>=-Ensures (assert_valid_rule true r)
        (λ u f. gives (ground (arith, e, Ensures-ok (assert_valid_rule-is_valid r) f))))
]
set_rule-is_valid (some false) r p h = gives refl
set_rule-is_valid (some true) none p h = throws
set_rule-is_valid (some true) (some r) p h =
    >>=-Ensures (assert_valid_rule true r)
      (λ u f. gives (ground (arith, Ensures-ok (assert_valid_rule-is_valid r) f)))

set_name-is_valid :
    (name : Option String) (p : Playlist)
    → Ensures (λ (q : Playlist). is_unruly q ≡ is_unruly p) (set_name name p)
unfolding set_name
set_name-is_valid none p = gives refl
set_name-is_valid (some s) p = elim (Bool-cases (str_eq (trim s) "")) [
  | inl e ↦ rw e throws
  | inr e ↦ rw e (gives refl)
]

save_playlist-KeepsRules :
    (q : Playlist) (st : Store)
    → is_unruly q ≡ false
    → Ruled st.playlists
    → KeepsRules st (save_playlist q st)
unfolding save_playlist KeepsRules
save_playlist-KeepsRules q st h v = (
  save_row (is_named q.id) q st.playlists,
  refl,
  ground (arith, h, v, count_rows-save_row (is_named q.id) is_unruly q st.playlists),
)

pub update-KeepsRules :
    (id user : String) (input : UpdatePlaylistInput) (st : Store)
    → Ruled st.playlists
    → Ensures (λ (r : Playlist × Store). KeepsRules st r.1) (update id user input st)
unfolding update
update-KeepsRules id user input st v = >>=-Ensures (get_editable_playlist id user st) (λ p f.
    >>=-Ensures (set_name input.name p) (λ named f'.
      >>=-Ensures (set_rule input.is_rule_based input.rule (set_details input named))
        (λ changed f''.
          let old =
            find_row-uncounted (is_named id) is_unruly st.playlists v
              (get_editable_playlist-MayEdit id user st f).1 in
          let same = Ensures-ok (set_name-is_valid input.name p) f' in
          gives (
            save_playlist-KeepsRules changed st
              (Ensures-ok
                (set_rule-is_valid input.is_rule_based input.rule (set_details input named)
                  (same ∙ old))
                f'')
              v))))

pub create-KeepsRules :
    (id user : String) (input : CreatePlaylistInput) (st : Store)
    → Ruled st.playlists
    → Ensures (λ (r : Playlist × Store). KeepsRules st r.1) (create id user input st)
unfolding create KeepsRules count_rows assert_valid_rule
create-KeepsRules id user input st v = elim (Option-cases (trimmed input.name)) [
  | inl e ↦ rw (e, create) throws
  | inr (name, e) ↦ elim (Bool-cases (or_else input.is_rule_based false)) [
    | inr f ↦
        rw (e, f, create) (gives (_, refl, count_rows-append is_unruly st.playlists _ ∙ rw v refl))
    | inl f ↦
        rw (e, f, create)
          (>>=-Ensures (assert_valid_rule true input.rule) (λ u g. gives (
            _,
            refl,
            count_rows-append is_unruly st.playlists _
                ∙ ground (arith, v, Ensures-ok (assert_valid_rule-is_valid input.rule) g),
          )))
  ]
]
