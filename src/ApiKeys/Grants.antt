-- ===== src/ApiKeys/Grants.antt =====
-- src/services/ApiKeyService.ts: what a key grants.
use audio_block_backend.ApiKeys.{
  ApiKey, User, UserRole, Error, unknown_permission, permission_exceeds_role, permission_text,
  all_permissions, includes, role_has_permission, assert_permissions_allowed_for_role,
  key_has_permission,
}
use audio_block_backend.Base.{
  ◌≡◌, refl, sym, subst, inl, inr, Bool, true, false, not, List, [], ◌∷◌, map, arith, String,
  eq_iff, Bool-cases, Outcome, refuse, ◌>>◌, str_eq, ok,
}

-- A refusal that lets a chain through was not made.
passed :
    {A : Type 0} (t : Bool) (e : Error) (next : Outcome Error A) {a : A}
    → (refuse t e >> next) ≡ ok a
    → (t ≡ false) × (next ≡ ok a)
passed true e next h = cc
passed false e next h = (refl, h)

role_holds :
    (role : UserRole) (p : String) (ps : List String)
    → assert_permissions_allowed_for_role role ps ≡ ok tt
    → includes p ps ≡ true
    → role_has_permission role p ≡ true
unfolding assert_permissions_allowed_for_role includes
role_holds role p [] h i = cc
role_holds role p (q ∷ qs) h i =
    let (known, h') =
      passed (not (includes q (map permission_text all_permissions))) unknown_permission _ h in
    let (holds, rest) = passed (not (role_has_permission role q)) permission_exceeds_role _ h' in
    elim (Bool-cases (str_eq p q)) [
      | inl e ↦
          let same : q ≡ p = sym ((eq_iff p q).0 e) in
          subst (λ x. role_has_permission role x ≡ true) same (ground (arith, holds))
      | inr e ↦ role_holds role p qs rest (rw e at i)
    ]

-- A key whose permissions the role of its owner allowed when it was issued grants just the
-- permissions that it lists, while the owner has that role.
pub key_has_permission-allowed :
    (k : ApiKey) (owner : User) (p : String)
    → assert_permissions_allowed_for_role owner.role k.permissions ≡ ok tt
    → key_has_permission k owner p ≡ includes p k.permissions
unfolding key_has_permission
key_has_permission-allowed k owner p h = elim (Bool-cases (includes p k.permissions)) [
  | inl e ↦
      let holds = role_holds owner.role p k.permissions h e in
      rw (key_has_permission, e, holds) refl
  | inr e ↦ rw (key_has_permission, e) refl
]
