-- ===== src/Registry/Membership/Tests.antt =====
-- crates/registry: a member at a concrete input.
use frontkeep.Base.{
  String, ◌≡◌, refl, ◌⊎◌, Bool, true, false, not, ◌&&◌, ◌||◌, Option, some, [], ◌==◌, err, ok,
}
use frontkeep.Registry.Members.{
  normalize_email, is_steward, is_authority, add_member, remove_member, ProjectMember, MembersDb,
}
use frontkeep.Registry.Membership.{IsUnique, add_member_lem}
use frontkeep.Registry.Records.{Registration}
use frontkeep.Registry.Samples.{whole, registered_project}
use frontkeep.Registry.Tiers.{RegistryError, validation}
use frontkeep.Storage.Env.{Env}

abbrev registered : String → Option (Registration whole)
registered project = some (record registered_project { registered = true; lifecycle = "active" })

abbrev nobody : MembersDb
nobody = record { members = []; audit_log = [] }

abbrev same_case : String → String
same_case s = s

abbrev moment : Env
moment = record { now = 7; uid = "u1"; audit_uid = "audit" }

malformed :
    normalize_email same_case "carol@host"
    ≡ err (validation "'carol@host' is not a well-formed email address")
unfolding normalize_email
malformed = refl

add_member_lem_example :
    ((e : RegistryError) × (add_member same_case registered moment "p1" " carol@x.org" "alice"
          nobody
        ≡ (nobody, err e)))
    ⊎ ((email : String) × (after : MembersDb × ProjectMember) × (add_member same_case registered
            moment "p1" " carol@x.org" "alice" nobody
          ≡ (after.0, ok after.1))
        × (after.1.email ≡ email)
        × (is_steward registered "p1" email false ≡ false)
        × ((other who : String) (see_all : Bool)
            → is_authority registered other who see_all after.0.members
              ≡ (is_authority registered other who see_all [] || (other == "p1" && who == email)))
        × (IsUnique [] → IsUnique after.0.members)
        × ((remove_member same_case registered moment "p1" " carol@x.org" "alice" after.0).1
            ≡ ok true)
        × ((other who : String)
            → is_authority registered other who false
                (remove_member same_case registered moment "p1" " carol@x.org" "alice"
                  after.0).0.members
              ≡ (is_authority registered other who false []
                  && not (other == "p1" && who == email))))
add_member_lem_example =
    add_member_lem same_case registered moment "p1" " carol@x.org" "alice" nobody
