-- ===== src/ApiKeys/Limits.antt =====
-- src/services/ApiKeyService.ts: how many keys a user has, whatever is called.
use Prim.Native.String.{len}
use audio_block_backend.ApiKeys.{
  invalid_id, name_required, name_too_long, user_not_found, key_limit, key_not_found, ApiKey,
  ApiKeyView, ApiKeyScope, RateLimitTier, Store, Error, Env, is_active_of, is_unrevoked, is_id,
  has_hash, own_key, is_user, given, assert_permissions_allowed_for_role, insert, new_key,
  create_api_key, revoked, revoke_api_key, max_active_keys_per_user,
}
use audio_block_backend.Base.{
  ◌+◌, ◌≤◌, ◌≡◌, refl, sym, subst, inl, inr, Bool, false, not, some, List, [], ◌∷◌, arith, String,
  eq_iff, ltb, leb, if◌then◌else◌, Bool-cases, Option-cases, Outcome, Ensures, ◌>>=◌, >>=-Ensures,
  refuse-Ensures, Ensures-ok, find_row, save_row, count_rows, find_row_fits, count_rows-append,
  count_option, count_rows-save_row, str_eq, ok, err, gives, throws,
}

-- No user has more active keys than the limit.
unfoldable pub Limited : Store → Type 0
Limited st = (user : String) → count_rows (is_active_of user) st.keys ≤ max_active_keys_per_user

insert-Limited :
    (k : ApiKey) (st : Store)
    → Limited st
    → leb max_active_keys_per_user (count_rows (is_active_of k.user_id) st.keys) ≡ false
    → Ensures Limited (insert k st)
unfolding insert Limited count_rows
insert-Limited k st v h = elim (Option-cases (find_row (is_id k.id) st.keys)) [
  | inr (x, e) ↦ rw (insert, e) throws
  | inl e ↦ elim (Option-cases (find_row (has_hash k.key_hash) st.keys)) [
    | inr (x, f) ↦ rw (insert, e, f) throws
    | inl f ↦
        rw (insert, e, f)
          (gives (λ user.
            let c = count_rows-append (is_active_of user) st.keys (k ∷ []) in
            let most = v user in
            elim (Bool-cases (str_eq user k.user_id)) [
              | inl g ↦
                  let same : k.user_id ≡ user = sym ((eq_iff user k.user_id).0 g) in
                  let room : leb 20 (count_rows (is_active_of user) st.keys) ≡ false =
                    subst (λ u. leb 20 (count_rows (is_active_of u) st.keys) ≡ false) same h in
                  ground (arith, c, room)
              | inr g ↦ ground (arith, c, g, most)
            ]))
  ]
]

pub create_api_key-Limited :
    (env : Env) (user name : String) (scopes : List ApiKeyScope) (permissions : List String)
    (tier : RateLimitTier) (st : Store)
    → Limited st
    → Ensures
        (λ (r : (ApiKeyView × String) × Store). Limited r.1)
        (create_api_key env user name scopes permissions tier st)
unfolding create_api_key new_key
create_api_key-Limited env user name scopes permissions tier st v =
    let full = leb max_active_keys_per_user (count_rows (is_active_of user) st.keys) in
    refuse-Ensures (not (env.is_uuid user)) invalid_id (λ _.
      refuse-Ensures (str_eq name "") name_required (λ _.
        refuse-Ensures (ltb 100 (len name)) name_too_long (λ _.
          >>=-Ensures (given user_not_found (find_row (is_user user) st.users)) (λ u _.
            >>=-Ensures (assert_permissions_allowed_for_role u.role permissions) (λ _ _.
              refuse-Ensures full key_limit (λ h.
                >>=-Ensures (insert (new_key env user name scopes permissions tier) st) (λ st' e.
                  gives (
                    Ensures-ok
                      (insert-Limited (new_key env user name scopes permissions tier) st v h)
                      e))))))))

pub found_by_own :
    (id : String) (k : ApiKey) (keys : List ApiKey)
    → find_row (is_id id) keys ≡ some k
    → find_row (is_id k.id) keys ≡ some k
found_by_own id k keys e =
    let own : id ≡ k.id = (eq_iff id k.id).0 (find_row_fits (is_id id) keys k e) in
    subst (λ x. find_row (is_id x) keys ≡ some k) own e

-- A row that is not active takes the place of another.
save_revoked :
    (p : ApiKey → Bool) (user : String) (k k' : ApiKey) (keys : List ApiKey)
    → find_row p keys ≡ some k
    → is_unrevoked k' ≡ false
    → count_rows (is_active_of user) keys ≤ max_active_keys_per_user
    → count_rows (is_active_of user) (save_row p k' keys) ≤ max_active_keys_per_user
save_revoked p user k k' keys e off most =
    let c = count_rows-save_row p (is_active_of user) k' keys in
    let c' : count_rows (is_active_of user) (save_row p k' keys)
          + count_option (is_active_of user) (some k)
        ≡ count_rows (is_active_of user) keys + count_option (is_active_of user) (some k') =
      rw e at c in
    ground (arith, c', off, most)

revoked-Limited :
    (env : Env) (id : String) (k : ApiKey) (st : Store)
    → find_row (is_id id) st.keys ≡ some k
    → Limited st
    → Limited (revoked env k st).1
unfolding revoked Limited
revoked-Limited env id k st e v user = elim (Option-cases k.revoked_at) [
  | inr (t, f) ↦ simp (revoked, f) (v user)
  | inl f ↦
      let k' : ApiKey = record k { revoked_at = some env.now } in
      simp (revoked, f)
        (save_revoked (is_id k.id) user k k' st.keys (found_by_own id k st.keys e) refl (v user))
]

own_key-found :
    (user id : String) (st : Store) {k : ApiKey}
    → own_key user (find_row (is_id id) st.keys) ≡ ok k
    → find_row (is_id id) st.keys ≡ some k
own_key-found user id st {k} e = elim (Option-cases (find_row (is_id id) st.keys)) [
  | inl f ↦ let e' : err key_not_found ≡ ok k = rw f at e in cc
  | inr (x, f) ↦
      let e' : (if str_eq user x.user_id then ok x else err key_not_found) ≡ ok k = rw f at e in
      elim (Bool-cases (str_eq user x.user_id)) [
        | inl g ↦ let same : ok x ≡ ok k = rw g at e' in cc
        | inr g ↦ let never : err key_not_found ≡ ok k = rw g at e' in cc
      ]
]

pub revoke_api_key-Limited :
    (env : Env) (user id : String) (st : Store)
    → Limited st
    → Ensures (λ (r : ApiKeyView × Store). Limited r.1) (revoke_api_key env user id st)
unfolding revoke_api_key
revoke_api_key-Limited env user id st v = refuse-Ensures (not (env.is_uuid user)) _ (λ _.
    refuse-Ensures (not (env.is_uuid id)) _ (λ _.
      >>=-Ensures (own_key user (find_row (is_id id) st.keys))
        (λ k e. gives (revoked-Limited env id k st (own_key-found user id st e) v))))

-- A call that changes a key.
pub data Request : Type 0 where
  creates : String → String → List ApiKeyScope → List String → RateLimitTier → Request
  revokes : String → String → Request

unfoldable pub after : Env → Request → Store → Outcome Error Store
after env (creates user name scopes permissions tier) st = do
  r ← create_api_key env user name scopes permissions tier st
  ok r.1
after env (revokes user id) st = do r ← revoke_api_key env user id st; ok r.1

abbrev pub kept : Store → Outcome Error Store → Store
kept st (ok st') = st'
kept st (err e) = st

-- The calls one after the other; one that throws changes nothing.
unfoldable pub after_all : List (Env × Request) → Store → Store
unfolding after
after_all [] st = st
after_all ((env, r) ∷ more) st = after_all more (kept st (after env r st))

after-Limited :
    (env : Env) (r : Request) (st : Store) → Limited st → Ensures Limited (after env r st)
unfolding after
after-Limited env (creates user name scopes permissions tier) st v =
    >>=-Ensures (create_api_key env user name scopes permissions tier st) (λ r e.
      gives (Ensures-ok (create_api_key-Limited env user name scopes permissions tier st v) e))
after-Limited env (revokes user id) st v =
    >>=-Ensures (revoke_api_key env user id st)
      (λ r e. gives (Ensures-ok (revoke_api_key-Limited env user id st v) e))

kept-Limited :
    (st : Store) (o : Outcome Error Store) → Limited st → Ensures Limited o → Limited (kept st o)
kept-Limited st (ok st') v w = Ensures-ok w refl
kept-Limited st (err e) v w = v

-- Whatever keys are created and revoked, in any order and by any users, no user ever has more than
-- twenty active keys, if none had more before.
pub after_all-Limited :
    (calls : List (Env × Request)) (st : Store) → Limited st → Limited (after_all calls st)
unfolding after_all
after_all-Limited [] st v = v
after_all-Limited ((env, r) ∷ more) st v =
    after_all-Limited more (kept st (after env r st))
      (kept-Limited st (after env r st) v (after-Limited env r st v))
