-- ===== src/Registry/Members.antt =====
-- crates/registry/src/members.rs, and of lib.rs the stewards and the members of a project. The
-- registrations are a function of the project, or their list; the lower case of a text is a
-- parameter.
use Prim.Native.Char.{Char, code}
use frontkeep.Base.{
  ℕ, String, Bool, true, false, not, ◌&&◌, ◌||◌, Option, none, some, List, [], ◌∷◌, ◌++◌, ◌==◌, ltb,
  eqb, if◌then◌else◌, any, keep, contains, find?, delete_where, rows_affected, ◌>>=◌, ensure,
  Result, err, ok, split_once, trim, has_char, concat, sort, oldest_first,
}
use frontkeep.Base.Float.{Float}
use frontkeep.Base.Json.{json, str}
use frontkeep.Provision.Samples.{at}
use frontkeep.Registry.Active.{require_active}
use frontkeep.Registry.Records.{Registration}
use frontkeep.Registry.Tiers.{RegistryError, validation}
use frontkeep.Storage.Audit.{new_record, append, AuditRecord}
use frontkeep.Storage.Env.{Env}

pub record ProjectMember : Type 0 where
  pub project_id : String
  pub email : String
  pub added_by : String
  pub created_at : ℕ

pub record MembersDb : Type 0 where
  pub members : List ProjectMember
  pub audit_log : List AuditRecord

abbrev prepend : Char → List String → List String
prepend c [] = String.◌∷◌ c "" ∷ []
prepend c (part ∷ parts) = String.◌∷◌ c part ∷ parts

-- `str::split`
abbrev split : String → ℕ → List String
split String.[] at = "" ∷ []
split (String.◌∷◌ c s) at =
    let parts = split s at in if eqb (code c) at then "" ∷ parts else prepend c parts

abbrev is_domain : String → Bool
is_domain domain =
    not (domain == "") && has_char domain b'.' && not (any (λ part. part == "") (split domain b'.'))

abbrev bad_email : String → RegistryError
bad_email raw = validation (concat "'" (concat raw "' is not a well-formed email address"))

unfoldable pub normalize_email : (String → String) → String → Result RegistryError String
normalize_email to_lowercase raw =
    let e = to_lowercase (trim raw) in
    elim (split_once e b'@') [
      | none ↦ err (bad_email raw)
      | some parts ↦ if not (parts.0 == "") && is_domain parts.1 then ok e else err (bad_email raw)
    ]

abbrev pub is_row : String → String → ProjectMember → Bool
is_row project email m = m.project_id == project && m.email == email

unfoldable pub list_members : String → List ProjectMember → List ProjectMember
list_members project members =
    sort (oldest_first (λ m. m.created_at)) (keep (λ m. m.project_id == project) members)

unfoldable pub is_member : String → String → List ProjectMember → Bool
is_member project email members = any (is_row project email) members

abbrev pub project_ids : String → List ProjectMember → List String
project_ids email [] = []
project_ids email (m ∷ members) =
    let more = project_ids email members in if m.email == email then m.project_id ∷ more else more

-- `members::add`
unfoldable pub add :
    Env
    → (project email added_by : String) → List ProjectMember
    → List ProjectMember × ProjectMember
add env project email added_by members =
    let m : ProjectMember = record {
      project_id = project;
      email = email;
      added_by = added_by;
      created_at = env.now;
    } in
    (members ++ m ∷ [], m)

-- `members::remove`
unfoldable pub remove : String → String → List ProjectMember → List ProjectMember × Bool
remove project email members = (
  delete_where (is_row project email) members,
  ltb 0 (rows_affected (is_row project email) members),
)

module _ {F : Float} where
  abbrev pub holds : Registration F → String → Bool
  holds r email = r.owner == email || r.manager == email

  unfoldable pub is_steward :
      (String → Option (Registration F)) → (project email : String) → (see_all : Bool) → Bool
  is_steward registered project email see_all =
      if see_all then true else elim (registered project) [ none ↦ false | some r ↦ holds r email ]

  unfoldable pub is_authority :
      (String → Option (Registration F))
      → (project email : String) → (see_all : Bool) → List ProjectMember
      → Bool
  is_authority registered project email see_all members =
      if is_steward registered project email see_all then true else is_member project email members

  unfoldable pub list_scoped :
      List (Registration F) → Option String → List ProjectMember → List (Registration F)
  list_scoped all scope members = elim scope [
    | none ↦ all
    | some email ↦
        keep (λ r. holds r email || contains (project_ids email members) r.project_id) all
  ]

abbrev log_member : Env → (actor action outcome project email : String) → MembersDb → MembersDb
log_member env actor action outcome project email db = record db {
  audit_log =
      append
        (record (new_record env actor action) {
          entity_ref = some (concat "project:" project);
          outcome = outcome;
          data_json = json (("email", str email) ∷ []);
        })
        db.audit_log;
}

module _ {F : Float} (to_lowercase : String → String)
    (registered : String → Option (Registration F)) (env : Env) where
  abbrev add_new : (project email actor : String) → MembersDb → MembersDb × ProjectMember
  add_new project email actor db =
      let added = add env project email actor db.members in
      (
        log_member env actor "project.member_added" "added" project email
            (record db { members = added.0 }),
        added.1,
      )

  abbrev pub addressee : (project raw : String) → Result RegistryError String
  addressee project raw = do
    email ← normalize_email to_lowercase raw
    reg ← require_active registered project
    _ ←
        ensure (not (holds reg email))
          (validation (concat email " is already the project's owner or manager"))
    ok email

  abbrev pub granted :
      (project email actor : String) → MembersDb → Option ProjectMember → MembersDb × ProjectMember
  granted project email actor db (some existing) = (db, existing)
  granted project email actor db none = add_new project email actor db

  abbrev pub add_listed : (project email actor : String) → MembersDb → MembersDb × ProjectMember
  add_listed project email actor db =
      granted project email actor db
        (find? (λ m. m.email == email) (list_members project db.members))

  unfoldable pub add_member :
      (project raw actor : String) → MembersDb → MembersDb × Result RegistryError ProjectMember
  add_member project raw actor db = elim (addressee project raw) [
    | err e ↦ (db, err e)
    | ok email ↦ let added = add_listed project email actor db in (added.0, ok added.1)
  ]

  abbrev remove_listed : (project email actor : String) → MembersDb → MembersDb × Bool
  remove_listed project email actor db =
      let removed = remove project email db.members in
      let left : MembersDb = record db { members = removed.0 } in
      (
        if removed.1
            then log_member env actor "project.member_removed" "removed" project email left
            else left,
        removed.1,
      )

  unfoldable pub remove_member :
      (project raw actor : String) → MembersDb → MembersDb × Result RegistryError Bool
  remove_member project raw actor db = elim (normalize_email to_lowercase raw) [
    | err e ↦ (db, err e)
    | ok email ↦ let removed = remove_listed project email actor db in (removed.0, ok removed.1)
  ]
