-- ===== src/Identity/Tokens.antt =====
-- crates/identity/src/lib.rs: sessions and personal access tokens. Plaintexts are made of random
-- ids and given here; their digest is a parameter.
use mathlib.Core.Option
use frontkeep.Base.{
  ℕ, String, Bool, false, not, ◌&&◌, Option, none, some, List, [], ◌∷◌, ◌++◌, ◌==◌, ltb, keep,
  is_some, update_where, delete_where, ◌>>=◌, ◌>>◌, ok_or, ensure, Result, ok, by_key, row_of, sort,
  newest_first,
}
use frontkeep.Identity.Users.{get_user, User, IdentityError, invalid_session}
use frontkeep.Storage.Env.{plus_seconds, Env}

pub record SessionRow : Type 0 where
  pub token_hash : String
  pub user_id : String
  pub created_at : ℕ
  pub expires_at : ℕ

-- A row of `personal_access_tokens`
pub record PatRow : Type 0 where
  pub id : String
  pub user_id : String
  pub name : String
  pub token_hash : String
  pub token_suffix : String
  pub created_at : ℕ
  pub expires_at : Option ℕ
  pub revoked_at : Option ℕ

pub record IdentityDb : Type 0 where
  pub users : List User
  pub sessions : List SessionRow
  pub pats : List PatRow

abbrev pub session_key : SessionRow → String
session_key s = s.token_hash

abbrev pub pat_hash : PatRow → String
pat_hash p = p.token_hash

abbrev pub valid_user : String → IdentityDb → Result IdentityError User
valid_user id db = do
  u ← ok_or (get_user id db.users) invalid_session
  ensure u.active invalid_session
  ok u

abbrev pub passed : ℕ → Option ℕ → Bool
passed now none = false
passed now (some t) = ltb t now

module _ (sha256_hex : String → String) where
  unfoldable pub create_session : Env → String → String → ℕ → IdentityDb → IdentityDb
  create_session env token user_id ttl_seconds db = record db {
    sessions =
        db.sessions
        ++ record {
          token_hash = sha256_hex token;
          user_id = user_id;
          created_at = env.now;
          expires_at = plus_seconds env.now ttl_seconds;
        }
          ∷ [];
  }

  unfoldable pub validate_session : ℕ → String → IdentityDb → Result IdentityError User
  validate_session now token db = do
    s ← ok_or (row_of session_key (sha256_hex token) db.sessions) invalid_session
    ensure (not (ltb s.expires_at now)) invalid_session
    valid_user s.user_id db

  unfoldable pub revoke_session : String → IdentityDb → IdentityDb
  revoke_session token db = record db {
    sessions = delete_where (by_key session_key (sha256_hex token)) db.sessions;
  }

  unfoldable pub create_pat :
      Env → (token suffix user_id name : String) → Option ℕ → IdentityDb → IdentityDb
  create_pat env token suffix user_id name ttl_seconds db = record db {
    pats =
        db.pats
        ++ record {
          id = env.uid;
          user_id = user_id;
          name = name;
          token_hash = sha256_hex token;
          token_suffix = suffix;
          created_at = env.now;
          expires_at = Option.map (plus_seconds env.now) ttl_seconds;
          revoked_at = none;
        }
          ∷ [];
  }

  unfoldable pub validate_pat : ℕ → String → IdentityDb → Result IdentityError User
  validate_pat now token db = do
    p ← ok_or (row_of pat_hash (sha256_hex token) db.pats) invalid_session
    ensure (not (is_some p.revoked_at)) invalid_session
    ensure (not (passed now p.expires_at)) invalid_session
    valid_user p.user_id db

unfoldable pub list_pats : String → IdentityDb → List PatRow
list_pats user_id db =
    sort (newest_first (λ p. p.created_at)) (keep (λ p. p.user_id == user_id) db.pats)

unfoldable pub revoke_pat : Env → String → String → IdentityDb → IdentityDb
revoke_pat env user_id id db = record db {
  pats =
      update_where (λ p. p.id == id && p.user_id == user_id)
        (λ p. record p { revoked_at = some env.now }) db.pats;
}
