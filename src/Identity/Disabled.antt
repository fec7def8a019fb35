-- ===== src/Identity/Disabled.antt =====
-- crates/identity/src/lib.rs: a disabled account, under any sequence of calls.
use mathlib.Core.Option
use frontkeep.Base.{
  ℕ, String, ◌≡◌, refl, ◌≢◌, ◌⊎◌, inl, inr, Bool, true, false, not, ◌||◌, Option, some, List, [],
  ◌∷◌, ◌++◌, ◌==◌, eq_iff, arith, ltb, Bool-cases, Option-cases, All, is_some, find?-append, ok_or,
  ensure, >>=-eq-ok, ok, by_key, row_of, row_of-update, row_of-key,
}
use frontkeep.Identity.Roles.{role_parse, role_as_str, is_role, Role, admin}
use frontkeep.Identity.Tokens.{
  session_key, pat_hash, valid_user, passed, create_session, validate_session, revoke_session,
  create_pat, validate_pat, revoke_pat, IdentityDb,
}
use frontkeep.Identity.Users.{
  user_id, get_user, get_user_by_username, set_role, set_active, next_role, upsert_oidc_user, User,
  invalid_session,
}
use frontkeep.Policy.Engine.{allowed}
use frontkeep.Storage.Env.{Env}

pub data IdentityCall : Type 0 where
  opens : Env → (token user_id : String) → ℕ → IdentityCall
  closes : (token : String) → IdentityCall
  mints : Env → (token suffix user_id name : String) → Option ℕ → IdentityCall
  revokes : Env → (user_id id : String) → IdentityCall
  assigns : (id : String) → Role → IdentityCall
  enables : (id : String) → Bool → IdentityCall
  signs_in : Env → String → Option String → Option String → Option Role → Bool → IdentityCall

unfoldable pub step : (String → String) → IdentityDb → IdentityCall → IdentityDb
step sha256_hex db (opens env token user ttl) = create_session sha256_hex env token user ttl db
step sha256_hex db (closes token) = revoke_session sha256_hex token db
step sha256_hex db (mints env token suffix user name ttl) =
    create_pat sha256_hex env token suffix user name ttl db
step sha256_hex db (revokes env user id) = revoke_pat env user id db
step sha256_hex db (assigns id role) = record db { users = set_role id role db.users }
step sha256_hex db (enables id active) = record db { users = set_active id active db.users }
step sha256_hex db (signs_in env username email name target is_authoritative) = record db {
  users = (upsert_oidc_user env username email name target is_authoritative db.users).0;
}

unfoldable pub run : (String → String) → IdentityDb → List IdentityCall → IdentityDb
run sha256_hex db [] = db
run sha256_hex db (c ∷ cs) = run sha256_hex (step sha256_hex db c) cs

abbrev pub active_of : String → List User → Option Bool
active_of id users = Option.map (λ u. u.active) (row_of user_id id users)

-- Any call but one that enables the account.
abbrev pub keeps_disabled : String → IdentityCall → Bool
keeps_disabled id (enables other active) = not active || not (other == id)
keeps_disabled id _ = true

set_role-active_of :
    (id other : String) (role : Role) (users : List User)
    → active_of id users ≡ some false
    → active_of id (set_role other role users) ≡ some false
unfolding set_role
set_role-active_of id other role users off =
    let write : User → User =
      λ u. record u { role = role_as_str role; is_admin = is_role role admin } in
    elim (Option-cases (row_of user_id id users)) [
      | inl missing ↦ ground (arith, missing)
      | inr (u, found) ↦
          ground
            (arith, found, row_of-update user_id write other id users (λ u. refl), eq_iff id other)
    ]

set_active-active_of :
    (id other : String) (active : Bool) (users : List User)
    → (not active || not (other == id)) ≡ true
    → active_of id users ≡ some false
    → active_of id (set_active other active users) ≡ some false
unfolding set_active
set_active-active_of id other active users allowed off =
    let write : User → User = λ u. record u { active = active } in
    elim (Option-cases (row_of user_id id users)) [
      | inl missing ↦ ground (arith, missing)
      | inr (u, found) ↦ ground (
        arith,
        found,
        row_of-update user_id write other id users (λ u. refl),
        eq_iff id other,
        eq_iff other id,
      )
    ]

append-active_of :
    (id : String) (users : List User) (new : User)
    → active_of id users ≡ some false
    → active_of id (users ++ new ∷ []) ≡ some false
append-active_of id users new off = elim (Option-cases (row_of user_id id users)) [
  | inl missing ↦ ground (arith, missing)
  | inr (u, found) ↦ ground (arith, found, find?-append (by_key user_id id) users (new ∷ []))
]

upsert-active_of :
    (id : String) (env : Env) (username : String) (email name : Option String)
    (target : Option Role) (is_authoritative : Bool) (users : List User)
    → active_of id users ≡ some false
    → active_of id (upsert_oidc_user env username email name target is_authoritative users).0
      ≡ some false
unfolding upsert_oidc_user
upsert-active_of id env username email name target is_authoritative users off =
    elim (Option-cases (get_user_by_username username users)) [
      | inl new ↦ rw (new, upsert_oidc_user) (append-active_of id users _ off)
      | inr (u, known) ↦
          let next = next_role target is_authoritative (role_parse u.role) in
          elim (Bool-cases (is_role next (role_parse u.role))) [
            | inl kept ↦ rw (known, upsert_oidc_user, kept) off
            | inr moved_to ↦
                rw (known, upsert_oidc_user, moved_to) (set_role-active_of id u.id next users off)
          ]
    ]

step-active_of :
    (sha256_hex : String → String) (id : String) (db : IdentityDb) (c : IdentityCall)
    → keeps_disabled id c ≡ true
    → active_of id db.users ≡ some false
    → active_of id (step sha256_hex db c).users ≡ some false
unfolding step create_session revoke_session create_pat revoke_pat
step-active_of sha256_hex id db (opens env token user ttl) h off = off
step-active_of sha256_hex id db (closes token) h off = off
step-active_of sha256_hex id db (mints env token suffix user name ttl) h off = off
step-active_of sha256_hex id db (revokes env user pat) h off = off
step-active_of sha256_hex id db (assigns other role) h off =
    set_role-active_of id other role db.users off
step-active_of sha256_hex id db (enables other active) h off =
    set_active-active_of id other active db.users h off
step-active_of sha256_hex id db (signs_in env username email name target is_authoritative) h off =
    upsert-active_of id env username email name target is_authoritative db.users off

run-active_of :
    (sha256_hex : String → String) (id : String) (db : IdentityDb) (cs : List IdentityCall)
    → All (λ c. keeps_disabled id c ≡ true) cs
    → active_of id db.users ≡ some false
    → active_of id (run sha256_hex db cs).users ≡ some false
unfolding run
run-active_of sha256_hex id db [] hs off = off
run-active_of sha256_hex id db (c ∷ cs) (h, hs) off =
    run-active_of sha256_hex id (step sha256_hex db c) cs hs
      (step-active_of sha256_hex id db c h off)

valid_user-active :
    (owner id : String) (db : IdentityDb) (u : User)
    → active_of id db.users ≡ some false
    → valid_user owner db ≡ ok u
    → u.id ≢ id
unfolding get_user
valid_user-active owner id db u off h same = elim (Option-cases (row_of user_id owner db.users)) [
  | inl missing ↦ ground (arith, missing)
  | inr (v, found) ↦ ground (arith, found, row_of-key user_id owner db.users v found)
]

-- A disabled user stays disabled under every call but one that enables the account, and until then
-- no session and no personal access token, old or new, is accepted as that user's.
pub run-disabled :
    (sha256_hex : String → String) (id : String) (db : IdentityDb) (cs : List IdentityCall)
    (now : ℕ) (token : String) (u : User)
    → active_of id db.users ≡ some false
    → All (λ c. keeps_disabled id c ≡ true) cs
    → (validate_session sha256_hex now token (run sha256_hex db cs) ≡ ok u)
      ⊎ (validate_pat sha256_hex now token (run sha256_hex db cs) ≡ ok u)
    → u.id ≢ id
unfolding validate_session validate_pat
run-disabled sha256_hex id db cs now token u off hs valid =
    let db' = run sha256_hex db cs in
    let off' = run-active_of sha256_hex id db cs hs off in
    elim valid [
      | inl session ↦
          let (s, found, h1) =
            >>=-eq-ok (ok_or (row_of session_key (sha256_hex token) db'.sessions) invalid_session) _
              session in
          let (t, live, h2) =
            >>=-eq-ok (ensure (not (ltb s.expires_at now)) invalid_session) _ h1 in
          valid_user-active s.user_id id db' u off' h2
      | inr pat ↦
          let (p, found, h1) =
            >>=-eq-ok (ok_or (row_of pat_hash (sha256_hex token) db'.pats) invalid_session) _ pat in
          let (t, kept, h2) =
            >>=-eq-ok (ensure (not (is_some p.revoked_at)) invalid_session) _ h1 in
          let (w, live, h3) =
            >>=-eq-ok (ensure (not (passed now p.expires_at)) invalid_session) _ h2 in
          valid_user-active p.user_id id db' u off' h3
    ]
