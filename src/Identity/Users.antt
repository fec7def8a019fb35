-- ===== src/Identity/Users.antt =====
-- crates/identity/src/lib.rs: the users' table and the OIDC sign-in. Password digests are checked
-- by a parameter.
use frontkeep.Base.{
  ℕ, String, Bool, true, false, not, ◌&&◌, Option, none, some, List, [], ◌∷◌, ◌++◌, ◌==◌,
  if◌then◌else◌, unwrap_or, find?, update_where, ◌>>=◌, ◌>>◌, ok_or, ensure, Result, ok, by_key,
  row_of, sort, newest_first,
}
use frontkeep.Identity.Roles.{role_parse, role_as_str, is_role, Role, admin, member}
use frontkeep.Storage.Env.{Env}

pub record User : Type 0 where
  pub id : String
  pub username : String
  pub email : Option String
  pub display_name : Option String
  pub provider : String
  pub is_admin : Bool
  pub role : String
  pub active : Bool
  pub created_at : ℕ
  -- the column that `row_to_user` leaves
  pub password_hash : Option String

pub data IdentityError : Type 0 where
  invalid_credentials invalid_session : IdentityError

abbrev pub user_id : User → String
user_id u = u.id

unfoldable pub get_user : String → List User → Option User
get_user id users = row_of user_id id users

unfoldable pub get_user_by_username : String → List User → Option User
get_user_by_username username users = find? (λ u. u.username == username) users

unfoldable pub list_users : List User → List User
list_users users = sort (newest_first (λ u. u.created_at)) users

unfoldable pub set_role : String → Role → List User → List User
set_role id role users =
    update_where (by_key user_id id)
      (λ u. record u { role = role_as_str role; is_admin = is_role role admin }) users

unfoldable pub set_active : String → Bool → List User → List User
set_active id active users =
    update_where (by_key user_id id) (λ u. record u { active = active }) users

unfoldable pub authenticate_local :
    (String → String → Bool) → String → String → List User → Result IdentityError User
authenticate_local verify_password username password users = do
  u ← ok_or (get_user_by_username username users) invalid_credentials
  stored ← ok_or u.password_hash invalid_credentials
  ensure (verify_password password stored) invalid_credentials
  ensure u.active invalid_credentials
  ok u

abbrev pub is_some_admin : Option Role → Bool
is_some_admin (some admin) = true
is_some_admin _ = false

-- The role of a user who signs in again.
unfoldable pub next_role : Option Role → Bool → Role → Role
next_role target is_authoritative current =
    if is_authoritative
    then unwrap_or target member
    else if is_some_admin target && not (is_role current admin)
    then admin
    else current

-- A user's first sign-in.
abbrev pub new_user : Env → String → Option String → Option String → Role → User
new_user env username email display_name role = record {
  id = env.uid;
  username = username;
  email = email;
  display_name = display_name;
  provider = "oidc";
  is_admin = is_role role admin;
  role = role_as_str role;
  active = true;
  created_at = env.now;
  password_hash = none;
}

unfoldable pub upsert_oidc_user :
    Env → String → Option String → Option String → Option Role → Bool → List User → List User × User
upsert_oidc_user env username email display_name target is_authoritative users =
    elim (get_user_by_username username users) [
      | some u ↦
          let current = role_parse u.role in
          let next = next_role target is_authoritative current in
          if not (is_role next current)
          then (
            set_role u.id next users,
            record u { role = role_as_str next; is_admin = is_role next admin },
          )
          else (users, u)
      | none ↦
          let u = new_user env username email display_name (unwrap_or target member) in
          (users ++ u ∷ [], u)
    ]
