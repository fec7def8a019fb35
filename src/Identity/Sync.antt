-- ===== src/Identity/Sync.antt =====
-- crates/identity/src/lib.rs: the role of a user after an OIDC sign-in.
use frontkeep.Base.{
  String, ◌≡◌, refl, ◌∙◌, ◌↔◌, inl, inr, Bool, true, false, Option, none, some, List, [], ◌∷◌, ◌++◌,
  ◌==◌, eq_refl, arith, if◌then◌else◌, Bool-cases, Option-cases, unwrap_or, IsKeyed, row_of-update,
  row_of-insert, row_of-found,
}
use frontkeep.Identity.Roles.{role_parse, role_as_str, is_role, Role, admin, finance, member}
use frontkeep.Identity.Users.{
  user_id, get_user, get_user_by_username, set_role, is_some_admin, next_role, new_user,
  upsert_oidc_user, User,
}
use frontkeep.Storage.Env.{Env}

role_parse-role_as_str : (r : Role) → role_parse (role_as_str r) ≡ r
unfolding role_parse role_as_str
role_parse-role_as_str admin = refl
role_parse-role_as_str finance = refl
role_parse-role_as_str member = refl

is_role_iff : (r s : Role) → (is_role r s ≡ true) ↔ (r ≡ s)
is_role_iff r s = ground arith

user_found-append :
    (users : List User) (new : User)
    → get_user new.id users ≡ none
    → get_user new.id (users ++ new ∷ []) ≡ some new
unfolding get_user
user_found-append users new fresh =
    ground (arith, row_of-insert user_id new new.id users fresh, eq_refl new.id)

-- The role that a sign-in should give to a user, known or new.
abbrev pub signed_in_role : Option User → Option Role → Bool → Role
signed_in_role none target is_authoritative = unwrap_or target member
signed_in_role (some u) target true = unwrap_or target member
signed_in_role (some u) target false = if is_some_admin target then admin else role_parse u.role

next_role-signed_in_role :
    (u : User) (target : Option Role) (is_authoritative : Bool)
    → next_role target is_authoritative (role_parse u.role)
      ≡ signed_in_role (some u) target is_authoritative
unfolding next_role
next_role-signed_in_role u target true = refl
next_role-signed_in_role u target false = ground arith

-- In a table without two users of an id, and with an unused id for a new user: a sign-in under an
-- authoritative mapping gives the mapped role, demotion included, or member where it maps to none;
-- without one it promotes to admin or leaves the role alone. A new user gets the mapped role, or
-- member. The user that is returned is the one that is then stored.
pub upsert_oidc_user_lem :
    (env : Env) (username : String) (email display_name : Option String) (target : Option Role)
    (is_authoritative : Bool) (users : List User)
    → get_user env.uid users ≡ none
    → IsKeyed user_id users
    → let out = upsert_oidc_user env username email display_name target is_authoritative users in
      (role_parse out.1.role
        ≡ signed_in_role (get_user_by_username username users) target is_authoritative)
      × (get_user out.1.id out.0 ≡ some out.1)
unfolding upsert_oidc_user get_user get_user_by_username set_role
upsert_oidc_user_lem env username email display_name target is_authoritative users fresh k =
    elim (Option-cases (get_user_by_username username users)) [
      | inl new ↦
          rw (new, upsert_oidc_user)
            (
              role_parse-role_as_str _,
              user_found-append users
                  (new_user env username email display_name (unwrap_or target member)) fresh,
            )
      | inr (u, known) ↦
          let next = next_role target is_authoritative (role_parse u.role) in
          let same = next_role-signed_in_role u target is_authoritative in
          elim (Bool-cases (is_role next (role_parse u.role))) [
            | inl kept ↦
                rw (known, upsert_oidc_user, kept)
                  (
                    ground (arith, kept, same, is_role_iff next (role_parse u.role)),
                    row_of-found user_id _ users u k known,
                  )
            | inr moved_to ↦
                rw (known, upsert_oidc_user, moved_to)
                  (
                    role_parse-role_as_str next ∙ same,
                    ground (
                      arith,
                      row_of-found user_id (λ v. v.username == username) users u k known,
                      row_of-update user_id
                          (λ v. record v { role = role_as_str next; is_admin = is_role next admin })
                          u.id u.id users (λ v. refl),
                      eq_refl u.id,
                    ),
                  )
          ]
    ]
