-- ===== src/Gateway/Call.antt =====
-- crates/gateway/src/lib.rs and error.rs: the types of `complete`, its errors, what it asks the
-- policy engine, and the records that it writes.
use frontkeep.Base.{
  ℕ, String, Bool, ◌&&◌, Option, none, some, List, [], ◌∷◌, ◌++◌, if◌then◌else◌, unwrap_or, Result,
  ok, err, join, concat,
}
use frontkeep.Base.Float.{Float}
use frontkeep.Base.Json.{texts, json, bool, number, str, array, Items, no_items, item}
use frontkeep.Gateway.Guardrails.{
  ChatMessage, Action, block, redact, flag, Category, prompt_injection, pii, secret, Mode, Verdict,
  InputOutcome, Rule,
}
use frontkeep.Gateway.Provider.{Provider, ChatRequest, ModelInfo, ChatResponse}
use frontkeep.Gateway.Tables.{ProjectRuntime, UsageEvent, GatewayDb}
use frontkeep.Policy.Engine.{PolicyEngine, PolicyRequest, Decision}
use frontkeep.Storage.Audit.{new_record, append, AuditRecord}
use frontkeep.Storage.Env.{Env}

pub data GatewayError : Type 0 where
  unauthorized project_killed project_inactive budget_exceeded : GatewayError
  unknown_model no_provider policy_denied guardrail_blocked provider_error : String → GatewayError
  row_not_found : GatewayError

-- A failed check: the error and the audit record, where one is written.
pub record Denial : Type 0 where
  pub error : GatewayError
  pub log : Option AuditRecord

abbrev pub silent : GatewayError → Denial
silent e = record { error = e; log = none }

abbrev pub category_name : Category → String
category_name prompt_injection = "prompt_injection"
category_name pii = "pii"
category_name secret = "secret"

abbrev pub action_name : Action → String
action_name block = "block"
action_name redact = "redact"
action_name flag = "flag"

-- `serde_json::to_value(&verdicts)`
abbrev pub verdict_items : List Verdict → Items
verdict_items [] = no_items
verdict_items (v ∷ vs) =
    item
      (json (
        ("rule_id", str v.rule_id)
        ∷ ("category", str (category_name v.category))
        ∷ ("action", str (action_name v.action))
        ∷ ("matches", number v.matches)
        ∷ []))
      (verdict_items vs)

-- The parts of `Gateway` besides its repository.
pub record Gateway (F : Float) : Type 0 where
  pub policy : PolicyEngine
  pub guardrails : List Rule
  pub registry : List (String × ModelInfo F)
  pub providers : List (String × Provider F)
  pub mode : Mode

pub record GatewayResponse (F : Float) : Type 0 where
  pub content : String
  pub trace_id : String
  pub model : String
  pub provider : String
  pub cost_usd : F.F64
  pub prompt_tokens : ℕ
  pub completion_tokens : ℕ
  pub guardrail_verdicts : List Verdict

-- What the checks leave for the rest of `complete`.
pub record Admitted (F : Float) : Type 0 where
  pub model : ModelInfo F
  pub messages : List ChatMessage
  pub verdicts : List Verdict
  pub provider : Provider F

-- The values of one call besides its request: the clock and the ids, the time that the provider
-- takes, the trace id and the data class, given or not.
pub record Caller : Type 0 where
  pub env : Env
  pub latency_ms : ℕ
  pub trace_id : Option String
  pub data_class : Option String

abbrev pub trace : Caller → String
trace c = unwrap_or c.trace_id (concat "tr_" c.env.uid)

abbrev pub deny_auth : Caller → AuditRecord
deny_auth c = record (new_record c.env "gateway" "gateway.auth") {
  trace_id = some (trace c);
  outcome = "denied";
  reason = some "invalid or revoked key";
}

module _ {F : Float} where
  abbrev pub budget_spent : ProjectRuntime F → Bool
  budget_spent rt = F.lt F.zero rt.budget_usd && F.le rt.budget_usd rt.spent_usd

  abbrev pub principal : ProjectRuntime F → String
  principal rt = concat "project:" rt.project_id

  abbrev pub entry : Caller → ProjectRuntime F → String → AuditRecord
  entry c rt action = record (new_record c.env (principal rt) action) { trace_id = some (trace c) }

  abbrev pub denied : Caller → ProjectRuntime F → ChatRequest F → String → GatewayError → Denial
  denied c rt req reason e = record {
    error = e;
    log = some (record (entry c rt "gateway.blocked") {
      entity_ref = some req.model;
      outcome = "denied";
      reason = some reason;
    });
  }

  -- What `complete` asks the policy engine.
  abbrev pub invoke_query : Caller → ProjectRuntime F → ModelInfo F → PolicyRequest
  invoke_query c rt model = record {
    principal = principal rt;
    action = "invoke";
    resource = model.model_ref;
    context = json (
        ("data_class", str (unwrap_or c.data_class rt.data_class))
        ∷ ("model_data_classes", array (texts model.data_classes))
        ∷ ("project_killed", bool rt.killed)
        ∷ ("budget_exceeded", bool (budget_spent rt))
        ∷ []);
  }

  abbrev pub policy_denial : Caller → ProjectRuntime F → ModelInfo F → Decision → Denial
  policy_denial c rt model d = record {
    error = policy_denied (join d.reasons "; ");
    log = some (record (entry c rt "gateway.policy") {
      entity_ref = some model.model_ref;
      outcome = "denied";
      reason = some (join d.reasons "; ");
    });
  }

  abbrev pub unblocked :
      Caller → ProjectRuntime F → ModelInfo F → InputOutcome → Result Denial (Unit {0})
  unblocked c rt model out = elim out.blocked [
    | none ↦ ok tt
    | some reason ↦ err (record {
      error = guardrail_blocked reason;
      log = some (record (entry c rt "gateway.guardrail") {
        entity_ref = some model.model_ref;
        outcome = "blocked";
        reason = some reason;
        data_json = array (verdict_items out.verdicts);
      });
    })
  ]

  -- The request as it goes out.
  abbrev pub sent : ProjectRuntime F → Admitted F → ChatRequest F → ChatRequest F
  sent rt a req = record req { messages = a.messages; user = some rt.project_id }

  abbrev pub cost : ModelInfo F → ChatResponse → F.F64
  cost model resp =
      F.add (F.mul (F.div (F.of_nat resp.prompt_tokens) (F.of_nat 1000)) model.cost_in)
        (F.mul (F.div (F.of_nat resp.completion_tokens) (F.of_nat 1000)) model.cost_out)

  abbrev pub usage_event : Caller → ProjectRuntime F → ModelInfo F → ChatResponse → UsageEvent F
  usage_event c rt model resp = record {
    project_id = rt.project_id;
    trace_id = some (trace c);
    model = model.model_ref;
    provider = model.provider;
    prompt_tokens = resp.prompt_tokens;
    completion_tokens = resp.completion_tokens;
    cost_usd = cost model resp;
    latency_ms = c.latency_ms;
    owner = rt.owner;
    manager = rt.manager;
    cost_group = rt.cost_group;
    cost_center = rt.cost_center;
    classification = rt.classification;
  }

  -- The soft cap: this call took the project across 80% of its budget.
  abbrev pub crosses_soft_cap : ProjectRuntime F → F.F64 → Bool
  crosses_soft_cap rt new_spent =
      let soft = F.mul (F.tenths 8) rt.budget_usd in
      F.lt F.zero rt.budget_usd && F.lt rt.spent_usd soft && F.le soft new_spent

  abbrev pub log_audit : AuditRecord → GatewayDb F → GatewayDb F
  log_audit rec db = record db { audit_log = append rec db.audit_log }

  abbrev pub budget_warning : Caller → ProjectRuntime F → F.F64 → AuditRecord
  budget_warning c rt new_spent = record (entry c rt "gateway.budget_warn") {
    outcome = "warn";
    reason = some (
        concat "crossed 80% of budget ("
          (concat (F.text4 new_spent) (concat "/" (concat (F.text4 rt.budget_usd) ")"))));
  }

  abbrev pub warnings : Caller → ProjectRuntime F → F.F64 → List AuditRecord
  warnings c rt new_spent =
      if crosses_soft_cap rt new_spent then budget_warning c rt new_spent ∷ [] else []

  abbrev pub warn_budget : Caller → ProjectRuntime F → F.F64 → GatewayDb F → GatewayDb F
  warn_budget c rt new_spent db = record db { audit_log = db.audit_log ++ warnings c rt new_spent }

  abbrev pub completion : Caller → ProjectRuntime F → ModelInfo F → ChatResponse → AuditRecord
  completion c rt model resp = record (entry c rt "gateway.completion") {
    entity_ref = some model.model_ref;
    outcome = "ok";
    data_json = json (
        ("cost_usd", F.json (cost model resp))
        ∷ ("prompt_tokens", number resp.prompt_tokens)
        ∷ ("completion_tokens", number resp.completion_tokens)
        ∷ ("latency_ms", number c.latency_ms)
        ∷ ("provider", str model.provider)
        ∷ []);
  }

  abbrev pub log_denial : Denial → GatewayDb F → GatewayDb F
  log_denial d db = elim d.log [ none ↦ db | some rec ↦ log_audit rec db ]
