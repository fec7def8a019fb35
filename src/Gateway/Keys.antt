-- ===== src/Gateway/Keys.antt =====
-- crates/gateway/src/keys.rs: the statements on the gateway's tables. The digest of a key's plaintext
-- is a parameter, `sha256_hex`.
use mathlib.Core.Option
use frontkeep.Base.{
  String, Bool, true, false, Option, none, some, List, [], ◌∷◌, ◌++◌, ◌==◌, if◌then◌else◌, find?,
  update_where, first_chars, by_key, row_of,
}
use frontkeep.Base.Float.{Float}
use frontkeep.Gateway.Tables.{
  is_live, ProjectRuntime, RuntimeRow, UsageEvent, UsageRow, MintedKey, GatewayDb,
}
use frontkeep.Storage.Env.{Env}
use frontkeep.Workflow.Engine.{project_id}

module _ {F : Float} where
  abbrev pub runtime_key : RuntimeRow F → String
  runtime_key row = row.runtime.project_id

  -- An `UPDATE projects_runtime SET …, updated_at = ? WHERE project_id = ?`
  abbrev pub update_project :
      Env → String → (ProjectRuntime F → ProjectRuntime F) → GatewayDb F → GatewayDb F
  update_project env project_id f db = record db {
    runtimes =
        update_where (by_key runtime_key project_id)
          (λ row. record row { runtime = f row.runtime; updated_at = env.now }) db.runtimes;
  }

  -- The defaults that the schema gives to the columns that an insert leaves out.
  abbrev new_runtime : String → F.F64 → String → ProjectRuntime F
  new_runtime project_id budget data_class = record {
    project_id = project_id;
    budget_usd = budget;
    spent_usd = F.zero;
    killed = false;
    data_class = data_class;
    owner = "";
    manager = "";
    cost_group = "";
    cost_center = "";
    classification = "poc";
    lifecycle = "active";
    registered = false;
  }

  unfoldable pub get_project : String → GatewayDb F → Option (ProjectRuntime F)
  get_project id db = Option.map (λ row. row.runtime) (row_of runtime_key id db.runtimes)

  -- `ensure_project`
  unfoldable pub ensure_project : Env → String → F.F64 → String → GatewayDb F → GatewayDb F
  ensure_project env project_id budget data_class db =
      elim (row_of runtime_key project_id db.runtimes) [
        | some row ↦ db
        | none ↦ record db {
          runtimes =
              db.runtimes
              ++ record {
                runtime = new_runtime project_id budget data_class;
                display_name = "";
                description = "";
                created_at = none;
                updated_at = env.now;
              }
                ∷ [];
        }
      ]

  unfoldable pub set_killed : Env → String → Bool → GatewayDb F → GatewayDb F
  set_killed env id killed db = update_project env id (λ rt. record rt { killed = killed }) db

  unfoldable pub set_identity : Env → String → String → String → GatewayDb F → GatewayDb F
  set_identity env id display_name description db = record db {
    runtimes =
        update_where (by_key runtime_key id)
          (λ row. record row {
            display_name = display_name;
            description = description;
            updated_at = env.now;
          })
          db.runtimes;
  }

  unfoldable pub set_budget : Env → String → F.F64 → GatewayDb F → GatewayDb F
  set_budget env id budget db = update_project env id (λ rt. record rt { budget_usd = budget }) db

  -- `add_spend`: the new total, or none where there is no such row (`fetch_one` fails).
  unfoldable pub add_spend : Env → String → F.F64 → GatewayDb F → GatewayDb F × Option F.F64
  add_spend env id amount db =
      let db' =
        update_project env id (λ rt. record rt { spent_usd = F.add rt.spent_usd amount }) db in
      (db', Option.map (λ rt. rt.spent_usd) (get_project id db'))

  unfoldable pub set_registration :
      Env → ProjectRuntime F → (display_name description : String) → GatewayDb F → GatewayDb F
  set_registration env new display_name description db =
      elim (row_of runtime_key new.project_id db.runtimes) [
        | some row ↦ record db {
          runtimes =
              update_where (by_key runtime_key new.project_id)
                (λ old. record old {
                  runtime = record old.runtime {
                    budget_usd = new.budget_usd;
                    data_class = new.data_class;
                    owner = new.owner;
                    manager = new.manager;
                    cost_group = new.cost_group;
                    cost_center = new.cost_center;
                    classification = new.classification;
                    lifecycle = "active";
                    registered = true;
                  };
                  display_name = display_name;
                  description = description;
                  updated_at = env.now;
                })
                db.runtimes;
        }
        | none ↦ record db {
          runtimes =
              db.runtimes
              ++ record {
                runtime = record new {
                  spent_usd = F.zero;
                  killed = false;
                  lifecycle = "active";
                  registered = true;
                };
                display_name = display_name;
                description = description;
                created_at = some env.now;
                updated_at = env.now;
              }
                ∷ [];
        }
      ]

  unfoldable pub set_ownership : Env → String → String → String → GatewayDb F → GatewayDb F
  set_ownership env id owner manager db =
      update_project env id (λ rt. record rt { owner = owner; manager = manager }) db

  unfoldable pub set_lifecycle : Env → String → String → GatewayDb F → GatewayDb F
  set_lifecycle env id lifecycle db =
      update_project env id (λ rt. record rt { lifecycle = lifecycle }) db

  unfoldable pub set_classification : Env → String → String → GatewayDb F → GatewayDb F
  set_classification env id classification db =
      update_project env id (λ rt. record rt { classification = classification }) db

  unfoldable pub record_usage : Env → UsageEvent F → GatewayDb F → GatewayDb F
  record_usage env ev db = record db {
    usage = db.usage ++ record { id = env.uid; ts = env.now; event = ev } ∷ [];
  }

  -- `SUM(cost_usd)` of a project's events
  abbrev sum_cost : String → List (UsageRow F) → F.F64
  sum_cost id [] = F.zero
  sum_cost id (row ∷ rows) =
      let rest = sum_cost id rows in
      if row.event.project_id == id then F.add row.event.cost_usd rest else rest

  unfoldable pub project_spend : String → GatewayDb F → F.F64
  project_spend id db = sum_cost id db.usage

-- The keys. The plaintext that `mint_key` makes of two random ids is given; its first twelve
-- characters are the prefix.
module _ {F : Float} (sha256_hex : String → String) where
  unfoldable pub mint_key :
      Env → String → String → Option String → GatewayDb F → GatewayDb F × MintedKey
  mint_key env plaintext project_id name db = (
    record db {
      keys =
          db.keys
          ++ record {
            id = env.uid;
            project_id = project_id;
            key_hash = sha256_hex plaintext;
            key_prefix = first_chars 12 plaintext;
            name = name;
            active = true;
            created_at = env.now;
            revoked_at = none;
          }
            ∷ [];
    },
    record { id = env.uid; plaintext = plaintext; prefix = first_chars 12 plaintext },
  )

  unfoldable pub verify_key : String → GatewayDb F → Option String
  verify_key plaintext db =
      Option.map (λ k. k.project_id) (find? (is_live (sha256_hex plaintext)) db.keys)

  -- `resolve_key`: the first live key of the digest whose project has a row. The index on
  -- `key_hash` is unique, so there is one key at most.
  unfoldable pub resolve_key : String → GatewayDb F → Option (ProjectRuntime F)
  resolve_key plaintext db = elim (verify_key plaintext db) [
    | none ↦ none
    | some id ↦ get_project id db
  ]

unfoldable pub revoke_key : {F : Float} → Env → String → GatewayDb F → GatewayDb F
revoke_key env key_id db = record db {
  keys =
      update_where (λ k. k.id == key_id)
        (λ k. record k { active = false; revoked_at = some env.now }) db.keys;
}
