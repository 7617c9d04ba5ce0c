-- ===== src/Tokens/Rotation.antt =====
-- Rotation and the detection of reuse in RefreshTokenService.ts.
use audio_block_backend.Base.{
  ℕ, ◌+◌, ◌≤◌, ◌<◌, ◌≡◌, refl, sym, ap, ◌∙◌, subst, ◌≢◌, ◌⊎◌, inl, inr, Bool, true, false, ◌&&◌,
  none, some, List, [], ◌∷◌, arith, String, eq_iff, ltb, leb, lt→ltb, leb→le, Bool-cases,
  Option-cases, some_unique, find_row, save_row, delete_rows, find_row-delete_rows, str_eq,
  str_eq_refl,
}
use audio_block_backend.Tokens.{
  RefreshToken, refresh_token_expiry, max_rotations, is_of_family, get_refresh_token, new_row,
  store_refresh_token, revoke_refresh_token, create_refresh_token, rotate_stored,
  rotate_refresh_token, revoke_all_user_tokens,
}

-- No row of the family is stored, live or expired.
abbrev pub IsRevoked : String → String → List RefreshToken → Type 0
IsRevoked user family rows = find_row (is_of_family user family) rows ≡ none

find_row-weaker {ℓ} :
    {R : Type ℓ} (p q : R → Bool) (rows : List R)
    → find_row p rows ≡ none
    → find_row (λ r. p r && q r) rows ≡ none
unfolding find_row
find_row-weaker p q [] h = refl
find_row-weaker p q (r ∷ rows) h = elim (Bool-cases (p r)) [
  | inl e ↦ absurd (ground arith)
  | inr e ↦ rw e (find_row-weaker p q rows (rw e at h))
]

get-revoked :
    (user family : String) (now : ℕ) (rows : List RefreshToken)
    → IsRevoked user family rows
    → get_refresh_token user family now rows ≡ none
unfolding get_refresh_token
get-revoked user family now rows h =
    find_row-weaker (is_of_family user family) (λ r. ltb now r.expires_at) rows h

revoke-IsRevoked :
    (user family : String) (rows : List RefreshToken)
    → IsRevoked user family (revoke_refresh_token user family rows)
unfolding revoke_refresh_token
revoke-IsRevoked user family rows = find_row-delete_rows (is_of_family user family) rows

find_row-save_row_and {ℓ} :
    {R : Type ℓ} (p q : R → Bool) (r : R) (rows : List R)
    → p r ≡ true
    → q r ≡ true
    → find_row (λ x. p x && q x) (save_row p r rows) ≡ some r
unfolding find_row save_row
find_row-save_row_and p q r [] h k = rw (h, k)
find_row-save_row_and p q r (x ∷ rows) h k = elim (Bool-cases (p x)) [
  | inl e ↦ rw (e, h, k)
  | inr e ↦ rw (e, e) (find_row-save_row_and p q r rows h k)
]

-- A stored token is found until it expires, and is the only one of its family that is.
pub get-store :
    (user family token : String) (rotation now later : ℕ) (rows : List RefreshToken)
    → later < now + refresh_token_expiry
    → get_refresh_token user family later (store_refresh_token user token family rotation now rows)
      ≡ some (new_row user token family rotation now)
unfolding get_refresh_token store_refresh_token new_row
get-store user family token rotation now later rows h =
    find_row-save_row_and (is_of_family user family) (λ r. ltb later r.expires_at) _ rows
      (rw (str_eq_refl user, str_eq_refl family)) (lt→ltb later (now + refresh_token_expiry) h)

-- A rotation either hands out the fresh token, since the family has a live row that holds the
-- presented token and has been rotated fewer than a hundred times; then the new token replaces the
-- old one, one rotation further and with a full term. Or there is no such row; then nothing is
-- handed out and the family is revoked.
pub rotate_cases :
    (user current family fresh : String) (now : ℕ) (rows : List RefreshToken)
    → let r = rotate_refresh_token user current family fresh now rows in
      ((stored : RefreshToken) × (get_refresh_token user family now rows ≡ some stored)
        × (stored.token ≡ current)
        × (stored.rotation < max_rotations)
        × (r.0 ≡ some fresh)
        × (r.1 ≡ store_refresh_token user fresh family (stored.rotation + 1) now rows))
      ⊎ ((r.0 ≡ none)
          × IsRevoked user family r.1
          × ¬ (
              (stored : RefreshToken) × (get_refresh_token user family now rows ≡ some stored)
              × (stored.token ≡ current)
              × (stored.rotation < max_rotations)))
unfolding rotate_refresh_token
rotate_cases user current family fresh now rows =
    elim (Option-cases (get_refresh_token user family now rows)) [
      | inl e ↦ inr (
        rw (e, rotate_refresh_token) refl,
        rw (e, rotate_refresh_token) (revoke-IsRevoked user family rows),
        λ (stored, f, g, young). cc,
      )
      | inr (stored, e) ↦ elim (Bool-cases (str_eq stored.token current)) [
        | inl same ↦ elim (Bool-cases (leb max_rotations stored.rotation)) [
          | inl old ↦ inr (
            rw (e, same, old, rotate_stored, rotate_refresh_token) refl,
            rw (e, same, old, rotate_stored, rotate_refresh_token)
                (revoke-IsRevoked user family rows),
            λ (s, f, g, young).
                let limit =
                  subst (λ (x : RefreshToken). max_rotations ≤ x.rotation) (some_unique _ e f)
                    (leb→le max_rotations stored.rotation old) in
                omega (arith, limit, young),
          )
          | inr young ↦ inl (
            stored,
            e,
            (eq_iff stored.token current).0 same,
            ground arith,
            rw (e, same, young, rotate_stored, rotate_refresh_token) refl,
            rw (e, same, young, rotate_stored, rotate_refresh_token) refl,
          )
        ]
        | inr other ↦ inr (
          rw (e, other, rotate_stored, rotate_refresh_token) refl,
          rw (e, other, rotate_stored, rotate_refresh_token) (revoke-IsRevoked user family rows),
          λ (s, f, g, young). absurd (
              cc (
                sym other
                ∙ (eq_iff stored.token current).1
                    (ap (λ (x : RefreshToken). x.token) (some_unique _ e f) ∙ g))),
        )
      ]
    ]

-- Once a family is revoked no token of it is accepted.
revoked_refuses :
    (user current family fresh : String) (now : ℕ) (rows : List RefreshToken)
    → IsRevoked user family rows
    → (rotate_refresh_token user current family fresh now rows).0 ≡ none
unfolding rotate_refresh_token
revoked_refuses user current family fresh now rows h =
    rw (get-revoked user family now rows h, rotate_refresh_token)

mismatch_revokes :
    (user current family fresh token : String) (rotation now later : ℕ) (rows : List RefreshToken)
    → token ≢ current
    → later < now + refresh_token_expiry
    → let r =
        rotate_refresh_token user current family fresh later
          (store_refresh_token user token family rotation now rows) in
      (r.0 ≡ none) × IsRevoked user family r.1
unfolding rotate_refresh_token rotate_stored new_row
mismatch_revokes user current family fresh token rotation now later rows differ h =
    let e = get-store user family token rotation now later rows h in
    let other : str_eq token current ≡ false = ground (arith, eq_iff token current) in
    (
      rw (e, rotate_refresh_token) (rw (other, rotate_stored)),
      rw (e, rotate_refresh_token) (rw (other, rotate_stored) (revoke-IsRevoked user family _)),
    )

-- A token that has been rotated away is presented again while its successor is live: the call is
-- refused, and from then on every token of the family is, the successor too.
pub reuse_detected :
    (user current family fresh next last any : String) (now later then_at : ℕ)
    (rows : List RefreshToken)
    → (rotate_refresh_token user current family fresh now rows).0 ≡ some fresh
    → fresh ≢ current
    → later < now + refresh_token_expiry
    → let after =
        rotate_refresh_token user current family next later
          (rotate_refresh_token user current family fresh now rows).1 in
      (after.0 ≡ none) × ((rotate_refresh_token user any family last then_at after.1).0 ≡ none)
reuse_detected user current family fresh next last any now later then_at rows ok differ h =
    elim (rotate_cases user current family fresh now rows) [
      | inl (stored, found, same, young, given, kept) ↦
          let (refused, revoked) =
            mismatch_revokes user current family next fresh (stored.rotation + 1) now later rows
              differ h in
          (rw kept refused, rw kept (revoked_refuses user any family last then_at _ revoked))
      | inr (refused, _, _) ↦ cc
    ]

-- No row has been rotated more than a hundred times.
abbrev pub IsBounded : List RefreshToken → Type 0
IsBounded [] = Unit
IsBounded (r ∷ rows) = (r.rotation ≤ max_rotations) × IsBounded rows

save_row-IsBounded :
    (p : RefreshToken → Bool) (r : RefreshToken) (rows : List RefreshToken)
    → r.rotation ≤ max_rotations
    → IsBounded rows
    → IsBounded (save_row p r rows)
unfolding save_row
save_row-IsBounded p r [] h b = (h, tt)
save_row-IsBounded p r (x ∷ rows) h b = elim (Bool-cases (p x)) [
  | inl e ↦ rw e (h, b.1)
  | inr e ↦ rw e (b.0, save_row-IsBounded p r rows h b.1)
]

delete_rows-IsBounded :
    (p : RefreshToken → Bool) (rows : List RefreshToken)
    → IsBounded rows
    → IsBounded (delete_rows p rows)
unfolding delete_rows
delete_rows-IsBounded p [] b = tt
delete_rows-IsBounded p (x ∷ rows) b = elim (Bool-cases (p x)) [
  | inl e ↦ rw e (delete_rows-IsBounded p rows b.1)
  | inr e ↦ rw e (b.0, delete_rows-IsBounded p rows b.1)
]

pub data Step : List RefreshToken → List RefreshToken → Type 0 where
  creates :
      (user family token : String) (now : ℕ) (rows : List RefreshToken)
      → Step rows (create_refresh_token user family token now rows)
  rotates :
      (user current family fresh : String) (now : ℕ) (rows : List RefreshToken)
      → Step rows (rotate_refresh_token user current family fresh now rows).1
  revokes :
      (user family : String) (rows : List RefreshToken)
      → Step rows (revoke_refresh_token user family rows)
  revokes_all :
      (user : String) (rows : List RefreshToken) → Step rows (revoke_all_user_tokens user rows)

-- Every operation keeps the rows such that none has been rotated more than a hundred times.
pub Step-IsBounded :
    {rows after : List RefreshToken} → Step rows after → IsBounded rows → IsBounded after
unfolding create_refresh_token store_refresh_token new_row revoke_refresh_token
    revoke_all_user_tokens rotate_refresh_token rotate_stored
Step-IsBounded (creates user family token now rows) b = save_row-IsBounded _ _ rows (omega arith) b
Step-IsBounded (rotates user current family fresh now rows) b =
    elim (Option-cases (get_refresh_token user family now rows)) [
      | inl e ↦ rw (e, rotate_refresh_token) (delete_rows-IsBounded _ rows b)
      | inr (stored, e) ↦
          rw (e, rotate_refresh_token)
            (elim (Bool-cases (str_eq stored.token current)) [
              | inl same ↦ elim (Bool-cases (leb max_rotations stored.rotation)) [
                | inl old ↦ rw (same, old, rotate_stored) (delete_rows-IsBounded _ rows b)
                | inr young ↦
                    rw (same, young, rotate_stored) (save_row-IsBounded _ _ rows (ground arith) b)
              ]
              | inr other ↦ rw (other, rotate_stored) (delete_rows-IsBounded _ rows b)
            ])
    ]
Step-IsBounded (revokes user family rows) b = delete_rows-IsBounded _ rows b
Step-IsBounded (revokes_all user rows) b = delete_rows-IsBounded _ rows b
