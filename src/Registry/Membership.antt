-- ===== src/Registry/Membership.antt =====
-- crates/registry/src/lib.rs: what a grant of membership gives, and what its removal takes.
mod Tests
use frontkeep.Base.{
  String, ◌≡◌, refl, sym, ap, ◌∙◌, ◌⊎◌, inl, inr, Bool, true, false, not, ◌&&◌, ◌||◌, Option, none,
  some, List, [], ◌∷◌, ◌++◌, ◌==◌, eq_iff, eq_refl, arith, ltb, any, keep, any-append, any-keep,
  find?, delete_where, rows_affected, find?_sound, Result-cases, Result, err, ok, any-sort,
  oldest_first,
}
use frontkeep.Base.Float.{Float}
use frontkeep.Registry.Active.{require_active}
use frontkeep.Registry.Members.{
  normalize_email, is_row, list_members, is_member, add, remove, is_steward, is_authority,
  addressee, granted, add_listed, add_member, remove_member, ProjectMember, MembersDb,
}
use frontkeep.Registry.Records.{Registration}
use frontkeep.Registry.Tiers.{RegistryError}
use frontkeep.Storage.Env.{Env}
use frontkeep.Workflow.Transitions.{after}

any-find? {ℓ} : {A : Type ℓ} (p : A → Bool) (xs : List A) → find? p xs ≡ none → any p xs ≡ false
any-find? p [] e = refl
any-find? p (x ∷ xs) e = ground (arith, any-find? p xs)

any-found {ℓ} :
    {A : Type ℓ} (p : A → Bool) (xs : List A) (x : A) → find? p xs ≡ some x → any p xs ≡ true
any-found p [] x e = cc
any-found p (y ∷ xs) x e = ground (arith, any-found p xs x)

any-affected {ℓ} : {A : Type ℓ} (p : A → Bool) (xs : List A) → ltb 0 (rows_affected p xs) ≡ any p xs
any-affected p [] = ground arith
any-affected p (x ∷ xs) = ground (arith, any-affected p xs)

-- The primary key of the table.
pub IsUnique : List ProjectMember → Type 0
IsUnique [] = Unit
IsUnique (m ∷ members) = (is_member m.project_id m.email members ≡ false) × IsUnique members

is_member-add :
    (m : ProjectMember) (project email : String) (members : List ProjectMember)
    → is_member project email (members ++ m ∷ [])
      ≡ (is_member project email members || is_row project email m)
unfolding is_member
is_member-add m project email members =
    ground (arith, any-append (is_row project email) members (m ∷ []))

is_member-remove :
    (project email other who : String) (members : List ProjectMember)
    → is_member other who (delete_where (is_row project email) members)
      ≡ (is_member other who members && not (other == project && who == email))
unfolding is_member
is_member-remove project email other who [] = ground arith
is_member-remove project email other who (m ∷ members) = ground (
  arith,
  is_member-remove project email other who members,
  eq_iff m.project_id project,
  eq_iff m.project_id other,
  eq_iff m.email email,
  eq_iff m.email who,
  eq_iff other project,
  eq_iff who email,
)

-- `add_member` looks for the row among the members of the project.
is_member-list :
    (project email : String) (members : List ProjectMember)
    → any (λ m. m.email == email) (list_members project members) ≡ is_member project email members
unfolding list_members is_member
is_member-list project email members =
    any-sort (oldest_first (λ m. m.created_at)) (λ m. m.email == email)
      (keep (λ m. m.project_id == project) members)
    ∙ any-keep (λ m. m.email == email) (λ m. m.project_id == project) members

add-IsUnique :
    (m : ProjectMember) (members : List ProjectMember)
    → is_member m.project_id m.email members ≡ false
    → IsUnique members
    → IsUnique (members ++ m ∷ [])
unfolding is_member IsUnique
add-IsUnique m [] new u = (refl, tt)
add-IsUnique m (x ∷ members) new (here, rest) = (
  ground (
    arith,
    is_member-add m x.project_id x.email members,
    here,
    new,
    eq_iff m.project_id x.project_id,
    eq_iff x.project_id m.project_id,
    eq_iff m.email x.email,
    eq_iff x.email m.email,
  ),
  add-IsUnique m members (ground (arith, new)) rest,
)

module _ {F : Float} (to_lowercase : String → String)
    (registered : String → Option (Registration F)) (env : Env) where
  addressee-steward :
      (project raw email : String)
      → addressee to_lowercase registered env project raw ≡ ok email
      → is_steward registered project email false ≡ false
  unfolding require_active is_steward
  addressee-steward project raw email e = ground (arith, e)

  -- A grant to an address: the address, the table and the member that it gives.
  pub record IsGranted (project email : String) (db : MembersDb) (after : MembersDb × ProjectMember)
      : Type 0 where
    pub named : after.1.email ≡ email
    pub member :
        (other who : String)
        → is_member other who after.0.members
          ≡ (is_member other who db.members || (other == project && who == email))
    pub unique : IsUnique db.members → IsUnique after.0.members

  granted-IsGranted :
      (project email actor : String) (db : MembersDb) (o : Option ProjectMember)
      → find? (λ m. m.email == email) (list_members project db.members) ≡ o
      → IsGranted project email db (granted to_lowercase registered env project email actor db o)
  unfolding add
  granted-IsGranted project email actor db none nobody =
      let new =
        sym (is_member-list project email db.members)
        ∙ any-find? (λ m. m.email == email) (list_members project db.members) nobody in
      record {
        named = refl;
        member = λ other who. ground (
          arith,
          is_member-add (add env project email actor db.members).1 other who db.members,
          eq_iff project other,
          eq_iff other project,
          eq_iff email who,
          eq_iff who email,
        );
        unique = add-IsUnique (add env project email actor db.members).1 db.members new;
      }
  granted-IsGranted project email actor db (some m) found = record {
    named = ground (
      arith,
      eq_iff m.email email,
      find?_sound (λ m. m.email == email) (list_members project db.members) m found,
    );
    member = λ other who. ground (
      arith,
      eq_iff other project,
      eq_iff who email,
      is_member-list project email db.members,
      any-found (λ m. m.email == email) (list_members project db.members) m found,
    );
    unique = λ u. u;
  }

  pub remove_member_lem :
      (project raw actor email : String) (db : MembersDb)
      → normalize_email to_lowercase raw ≡ ok email
      → ((remove_member to_lowercase registered env project raw actor db).1
          ≡ ok (is_member project email db.members))
        × ((other who : String)
            → is_member other who
                (remove_member to_lowercase registered env project raw actor db).0.members
              ≡ (is_member other who db.members && not (other == project && who == email)))
  unfolding remove_member remove is_member
  remove_member_lem project raw actor email db e = (
    ground (arith, e, any-affected (is_row project email) db.members),
    λ other who. ground (arith, e, is_member-remove project email other who db.members),
  )

  addressee-normal :
      (project raw email : String)
      → addressee to_lowercase registered env project raw ≡ ok email
      → normalize_email to_lowercase raw ≡ ok email
  addressee-normal project raw email e = ground (arith, e)

  -- A grant of membership either fails and changes nothing, or names a person who is no steward of
  -- the project. It then gives authority over this project to this person, and nothing else to
  -- anybody, keeps the table free of two rows of a project and an address, and a removal of the same
  -- address finds the row and leaves this person without authority over the project, and everybody
  -- else with what they had before the grant.
  pub add_member_lem :
      (project raw actor : String) (db : MembersDb)
      → ((e : RegistryError) × (add_member to_lowercase registered env project raw actor db
            ≡ (db, err e)))
        ⊎ ((email : String) × (after : MembersDb × ProjectMember) × (add_member to_lowercase
                registered env project raw actor db
              ≡ (after.0, ok after.1))
            × (after.1.email ≡ email)
            × (is_steward registered project email false ≡ false)
            × ((other who : String) (see_all : Bool)
                → is_authority registered other who see_all after.0.members ≡ (
                    is_authority registered other who see_all db.members
                    || (other == project && who == email)))
            × (IsUnique db.members → IsUnique after.0.members)
            × ((remove_member to_lowercase registered env project raw actor after.0).1 ≡ ok true)
            × ((other who : String)
                → is_authority registered other who false
                    (remove_member to_lowercase registered env project raw actor after.0).0.members
                  ≡ (is_authority registered other who false db.members
                      && not (other == project && who == email))))
  unfolding add_member is_authority
  add_member_lem project raw actor db =
      elim (Result-cases (addressee to_lowercase registered env project raw)) [
        | inl (e, refused) ↦ inl (e, ground (arith, refused))
        | inr (email, chosen) ↦
            let after = add_listed to_lowercase registered env project email actor db in
            let given = granted-IsGranted project email actor db _ refl in
            let taken =
              remove_member_lem project raw actor email after.0
                (addressee-normal project raw email chosen) in
            let known : is_member project email after.0.members ≡ true =
              ground (arith, given.member project email, eq_refl project, eq_refl email) in
            let steward = addressee-steward project raw email chosen in
            inr (
              email,
              after,
              ground (arith, chosen),
              given.named,
              steward,
              λ other who see_all. ground (arith, given.member other who),
              given.unique,
              taken.0 ∙ ap ok known,
              λ other who. ground (
                arith,
                steward,
                taken.1 other who,
                given.member other who,
                eq_iff other project,
                eq_iff who email,
              ),
            )
      ]
