-- ===== src/Storage/Audit.antt =====
-- crates/storage/src/audit.rs: the append-only audit log. The setters of `AuditRecord` are record
-- updates here.
use frontkeep.Base.{ℕ, String, Option, none, List, [], ◌∷◌, ◌++◌}
use frontkeep.Base.Json.{Json, object, no_fields}
use frontkeep.Storage.Env.{Env}

pub record AuditRecord : Type 0 where
  pub id : String
  pub ts : ℕ
  pub actor : String
  pub action : String
  pub entity_ref : Option String
  pub trace_id : Option String
  pub outcome : String
  pub reason : Option String
  pub data_json : Json

-- `AuditRecord::new`
abbrev pub new_record : Env → String → String → AuditRecord
new_record env actor action = record {
  id = env.audit_uid;
  ts = env.now;
  actor = actor;
  action = action;
  entity_ref = none;
  trace_id = none;
  outcome = "ok";
  reason = none;
  data_json = object no_fields;
}

-- `append`
abbrev pub append : AuditRecord → List AuditRecord → List AuditRecord
append rec log = log ++ rec ∷ []
