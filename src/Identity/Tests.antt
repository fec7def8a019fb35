-- ===== src/Identity/Tests.antt =====
-- crates/identity: users and their sessions at concrete inputs.
use frontkeep.Base.{ℕ, String, ◌≡◌, refl, ◌≢◌, inl, true, false, none, some, List, [], ◌∷◌}
use frontkeep.Identity.Disabled.{step, run, run-disabled, IdentityCall, opens, signs_in}
use frontkeep.Identity.Roles.{role_parse, admin, member}
use frontkeep.Identity.Sync.{upsert_oidc_user_lem}
use frontkeep.Identity.Tokens.{create_session, validate_session, IdentityDb}
use frontkeep.Identity.Users.{
  get_user, get_user_by_username, set_active, next_role, upsert_oidc_user, User,
}
use frontkeep.Storage.Env.{Env}

abbrev at : ℕ → Env
at now = record { now = now; uid = "u2"; audit_uid = "audit" }

abbrev alice : User
alice = record {
  id = "u1";
  username = "alice";
  email = none;
  display_name = none;
  provider = "oidc";
  is_admin = true;
  role = "admin";
  active = true;
  created_at = 1;
  password_hash = none;
}

upsert_oidc_user_lem_example :
    (role_parse (upsert_oidc_user (at 9) "alice" none none (some member) true (alice ∷ [])).1.role
      ≡ member)
    × (get_user
          (upsert_oidc_user (at 9) "alice" none none (some member) true (alice ∷ [])).1.id
          (upsert_oidc_user (at 9) "alice" none none (some member) true (alice ∷ [])).0
        ≡ some (upsert_oidc_user (at 9) "alice" none none (some member) true (alice ∷ [])).1)
unfolding get_user get_user_by_username
upsert_oidc_user_lem_example =
    upsert_oidc_user_lem (at 9) "alice" none none (some member) true (alice ∷ []) refl (refl, tt)

abbrev bob : User
bob = record alice { id = "u2"; username = "bob" }

-- The digest that tells texts apart: the text itself.
abbrev same_text : String → String
same_text s = s

-- Alice is disabled; Bob is not.
abbrev disabled : IdentityDb
disabled = record { users = set_active "u1" false (alice ∷ bob ∷ []); sessions = []; pats = [] }

abbrev tries : List IdentityCall
tries =
    opens (at 5) "token" "u1" 60
    ∷ opens (at 5) "ticket" "u2" 60
    ∷ signs_in (at 6) "alice" none none (some admin) false
    ∷ []

run-disabled_example : bob.id ≢ "u1"
unfolding set_active validate_session run step create_session upsert_oidc_user get_user
    get_user_by_username next_role role_parse
run-disabled_example =
    run-disabled same_text "u1" disabled tries 7 "ticket" bob refl (refl, (refl, (refl, tt)))
      (inl refl)
