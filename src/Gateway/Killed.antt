-- ===== src/Gateway/Killed.antt =====
-- crates/gateway: a killed project, under any sequence of the gateway's operations.
pub mod Run
use mathlib.Core.Option
use frontkeep.Base.{
  String, ◌≡◌, refl, inl, inr, Bool, true, false, Option, none, some, List, [], ◌∷◌, ◌++◌, ◌==◌,
  eq_iff, arith, Option-cases, keep, update_where, by_key, row_of, row_of-update, row_of-insert,
}
use frontkeep.Base.Float.{Float}
use frontkeep.Gateway.Call.{Gateway, Caller}
use frontkeep.Gateway.Complete.{complete}
use frontkeep.Gateway.Guardrails.{Regex}
use frontkeep.Gateway.Keys.{
  runtime_key, get_project, ensure_project, set_killed, set_identity, set_budget, add_spend,
  set_registration, set_ownership, set_lifecycle, set_classification, mint_key, revoke_key,
}
use frontkeep.Gateway.Provider.{ChatRequest}
use frontkeep.Gateway.Tables.{ProjectRuntime, RuntimeRow, GatewayDb}
use frontkeep.Storage.Env.{Env}
use frontkeep.Workflow.Engine.{project_id}

-- A call of the repository or of `complete`, with its arguments.
pub data GatewayCall (F : Float) : Type 0 where
  ensures : String → F.F64 → String → GatewayCall F
  kills : String → Bool → GatewayCall F
  names : (id display_name description : String) → GatewayCall F
  budgets spends : String → F.F64 → GatewayCall F
  registers : ProjectRuntime F → (display_name description : String) → GatewayCall F
  owns : (id owner manager : String) → GatewayCall F
  lives classifies : (id value : String) → GatewayCall F
  mints : (plaintext project_id : String) → Option String → GatewayCall F
  revokes : (key_id : String) → GatewayCall F
  completes : Gateway F → Caller → String → ChatRequest F → GatewayCall F

module _ {F : Float} (regex : Regex) (sha256_hex : String → String) where
  unfoldable pub step : GatewayDb F → Env × GatewayCall F → GatewayDb F
  step db (env, ensures id budget class) = ensure_project env id budget class db
  step db (env, kills id b) = set_killed env id b db
  step db (env, names id name text) = set_identity env id name text db
  step db (env, budgets id amount) = set_budget env id amount db
  step db (env, spends id amount) = (add_spend env id amount db).0
  step db (env, registers new name text) = set_registration env new name text db
  step db (env, owns id owner manager) = set_ownership env id owner manager db
  step db (env, lives id lifecycle) = set_lifecycle env id lifecycle db
  step db (env, classifies id class) = set_classification env id class db
  step db (env, mints plaintext id name) = (mint_key sha256_hex env plaintext id name db).0
  step db (env, revokes key_id) = revoke_key env key_id db
  step db (env, completes g c key req) = (complete regex sha256_hex g c key req db).0

  unfoldable pub run : GatewayDb F → List (Env × GatewayCall F) → GatewayDb F
  run db [] = db
  run db (c ∷ cs) = run (step db c) cs

module _ {F : Float} where
  abbrev pub killed_of : String → GatewayDb F → Option Bool
  killed_of id db = Option.map (λ rt. rt.killed) (get_project id db)

  abbrev pub is_for : String → String × String × ChatRequest F → Bool
  is_for id (provider, model, req) = elim req.user [ none ↦ false | some u ↦ u == id ]

  -- The calls that went out to providers for a project.
  abbrev pub chats_of : String → GatewayDb F → List (String × String × ChatRequest F)
  chats_of id db = keep (is_for id) db.chats

  -- The kill switch of the project is on, and nothing more went out for it.
  abbrev pub Holds : String → GatewayDb F → GatewayDb F → Type 0
  Holds id db db' = (killed_of id db' ≡ some true) × (chats_of id db' ≡ chats_of id db)

  pub killed_row :
      (id : String) (db : GatewayDb F)
      → killed_of id db ≡ some true
      → (row : RuntimeRow F) × (row_of runtime_key id db.runtimes ≡ some row)
        × (row.runtime.killed ≡ true)
  unfolding get_project
  killed_row id db h = elim (Option-cases (row_of runtime_key id db.runtimes)) [
    | inl missing ↦ ground (arith, missing)
    | inr (row, found) ↦ (row, found, ground (arith, found))
  ]

  -- An update that keeps the key and the switch of each row.
  pub update-killed_of :
      (id other : String) (write : RuntimeRow F → RuntimeRow F) (db : GatewayDb F)
      → ((row : RuntimeRow F) → runtime_key (write row) ≡ runtime_key row)
      → ((row : RuntimeRow F) → (write row).runtime.killed ≡ row.runtime.killed)
      → killed_of id db ≡ some true
      → killed_of id
          (record db { runtimes = update_where (by_key runtime_key other) write db.runtimes })
        ≡ some true
  unfolding get_project
  update-killed_of id other write db keeps same h =
      let (row, found, dead) = killed_row id db h in
      ground (
        arith,
        row_of-update runtime_key write other id db.runtimes keeps,
        found,
        same row,
        eq_iff id other,
      )

  -- An insert under a free key.
  insert-killed_of :
      (id : String) (new : RuntimeRow F) (db : GatewayDb F)
      → row_of runtime_key (runtime_key new) db.runtimes ≡ none
      → killed_of id db ≡ some true
      → killed_of id (record db { runtimes = db.runtimes ++ new ∷ [] }) ≡ some true
  unfolding get_project
  insert-killed_of id new db free h =
      let (row, found, dead) = killed_row id db h in
      ground (
        arith,
        row_of-insert runtime_key new id db.runtimes free,
        found,
        eq_iff id (runtime_key new),
      )

  pub ensure_project-Holds :
      (env : Env) (id other : String) (budget : F.F64) (class : String) (db : GatewayDb F)
      → killed_of id db ≡ some true
      → Holds id db (ensure_project env other budget class db)
  unfolding ensure_project
  ensure_project-Holds env id other budget class db h =
      elim (Option-cases (row_of runtime_key other db.runtimes)) [
        | inl free ↦ rw (free, ensure_project) (insert-killed_of id _ db free h, refl)
        | inr (row, found) ↦ rw (found, ensure_project) (h, refl)
      ]

  pub set_registration-Holds :
      (env : Env) (id : String) (new : ProjectRuntime F) (name text : String) (db : GatewayDb F)
      → killed_of id db ≡ some true
      → Holds id db (set_registration env new name text db)
  unfolding set_registration
  set_registration-Holds env id new name text db h =
      elim (Option-cases (row_of runtime_key new.project_id db.runtimes)) [
        | inl free ↦ rw (free, set_registration) (insert-killed_of id _ db free h, refl)
        | inr (row, found) ↦
            rw (found, set_registration)
              (update-killed_of id new.project_id _ db (λ row. refl) (λ row. refl) h, refl)
      ]
