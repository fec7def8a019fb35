-- ===== src/Gateway/Tables.antt =====
-- crates/gateway/src/keys.rs: the projects' runtime rows, the virtual keys and the usage events.
-- Columns that only dates or texts of
-- the user interface read are kept where an operation writes them.
use frontkeep.Base.{ℕ, String, Bool, not, ◌&&◌, Option, List, ◌==◌, is_some}
use frontkeep.Base.Float.{Float}
use frontkeep.Gateway.Provider.{ChatRequest}
use frontkeep.Storage.Audit.{AuditRecord}

module _ (F : Float) where
  pub record ProjectRuntime : Type 0 where
    pub project_id : String
    pub budget_usd : F.F64
    pub spent_usd : F.F64
    pub killed : Bool
    pub data_class : String
    pub owner : String
    pub manager : String
    pub cost_group : String
    pub cost_center : String
    pub classification : String
    pub lifecycle : String
    pub registered : Bool

  -- A row of `projects_runtime`: what `row_to_runtime` reads, and the columns that it leaves.
  pub record RuntimeRow : Type 0 where
    pub runtime : ProjectRuntime
    pub display_name : String
    pub description : String
    pub created_at : Option ℕ
    pub updated_at : ℕ

  pub record UsageEvent : Type 0 where
    pub project_id : String
    pub trace_id : Option String
    pub model : String
    pub provider : String
    pub prompt_tokens : ℕ
    pub completion_tokens : ℕ
    pub cost_usd : F.F64
    pub latency_ms : ℕ
    pub owner : String
    pub manager : String
    pub cost_group : String
    pub cost_center : String
    pub classification : String

  pub record UsageRow : Type 0 where
    pub id : String
    pub ts : ℕ
    pub event : UsageEvent

-- A row of `virtual_keys`
pub record KeyRow : Type 0 where
  pub id : String
  pub project_id : String
  pub key_hash : String
  pub key_prefix : String
  pub name : Option String
  pub active : Bool
  pub created_at : ℕ
  pub revoked_at : Option ℕ

pub record MintedKey : Type 0 where
  pub id : String
  pub plaintext : String
  pub prefix : String

abbrev pub is_live : String → KeyRow → Bool
is_live hash k = k.key_hash == hash && k.active && not (is_some k.revoked_at)

-- The tables of the gateway. `chats` is no table: it lists the calls that went out to providers,
-- each with the provider's name, the model and the request.
pub record GatewayDb (F : Float) : Type 0 where
  pub runtimes : List (RuntimeRow F)
  pub keys : List KeyRow
  pub usage : List (UsageRow F)
  pub audit_log : List AuditRecord
  pub chats : List (String × String × ChatRequest F)
