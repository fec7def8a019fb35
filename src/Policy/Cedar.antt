-- ===== src/Policy/Cedar.antt =====
-- crates/policy/src/cedar_engine.rs: the Cedar engine. The Cedar library is a parameter: its
-- parsers, its authorizer over the engine's policies, and the annotations of these. So is the upper
-- case of a character.
use Prim.Native.Char.{Char}
use frontkeep.Base.{
  String, Bool, ◌||◌, Option, some, List, [], ◌∷◌, ◌++◌, ◌==◌, if◌then◌else◌, unwrap_or, ◌>>=◌,
  map_err, Result, err, ok, split_once, concat,
}
use frontkeep.Base.Json.{Json}
use frontkeep.Gateway.Call.{principal}
use frontkeep.Gateway.Complete.{response}
use frontkeep.Policy.Engine.{
  deny_with, PolicyEngine, allow, deny, Obligation, requires, PolicyRequest, Decision,
}

pub record CedarResponse : Type 0 where
  -- `decision()`
  pub is_allow : Bool
  -- `diagnostics().reason()`
  pub reason : List String

pub record Cedar : Type 1 where
  pub EntityUid : Type 0
  pub Context : Type 0
  pub CedarRequest : Type 0
  pub uid_from_str : String → Result String EntityUid
  pub from_json_value : Json → Result String Context
  pub new_request : EntityUid → EntityUid → EntityUid → Context → Result String CedarRequest
  pub is_authorized : CedarRequest → CedarResponse
  -- the policy of an id, if there is one, by its annotation `approval`
  pub policy : String → Option (Option String)
  pub to_uppercase : Char → String

pub data PolicyError : Type 0 where
  parse context request : String → PolicyError

abbrev pub error_text : PolicyError → String
error_text (parse e) = concat "policy parse error: " e
error_text (context e) = concat "context error: " e
error_text (request e) = concat "request error: " e

module _ (c : Cedar) where
  unfoldable pub capitalize : String → String
  capitalize String.[] = "Entity"
  capitalize (String.◌∷◌ first rest) = concat (c.to_uppercase first) rest

  unfoldable pub cedar_type : String → String
  cedar_type kind =
      if kind == "user"
      then "User"
      else if kind == "group"
      then "Group"
      else if kind == "agent"
      then "Agent"
      else if kind == "model"
      then "Model"
      else if kind == "project"
      then "Project"
      else if kind == "dataset"
      then "Dataset"
      else if kind == "tool" || kind == "mcpserver"
      then "Tool"
      else if kind == "prompt"
      then "Prompt"
      else if kind == "eval"
      then "Eval"
      else capitalize kind

  abbrev quoted : String → String → String
  quoted ty id = concat ty (concat "::\"" (concat id "\""))

  unfoldable pub to_uid : String → Result PolicyError c.EntityUid
  to_uid reference =
      let (kind, id) = unwrap_or (split_once reference b':') ("entity", reference) in
      let s = quoted (cedar_type kind) id in
      map_err (λ e. parse (concat "uid '" (concat s (concat "': " e)))) (c.uid_from_str s)

  unfoldable pub action_uid : String → Result PolicyError c.EntityUid
  action_uid action =
      let s = quoted "Action" action in
      map_err (λ e. parse (concat "action '" (concat s (concat "': " e)))) (c.uid_from_str s)

  abbrev approval_of : Option (Option String) → List Obligation
  approval_of (some (some approver)) = requires approver ∷ []
  approval_of _ = []

  abbrev pub obligations_of : List String → List Obligation
  obligations_of [] = []
  obligations_of (pid ∷ pids) = approval_of (c.policy pid) ++ obligations_of pids

  abbrev or_default : Bool → List String → List String
  or_default allows [] =
      (if allows then "allowed by default" else "no matching permit (default deny)") ∷ []
  or_default allows (r ∷ rs) = r ∷ rs

  abbrev pub decision : CedarResponse → Decision
  decision response = record {
    effect = if response.is_allow then allow else deny;
    reasons = or_default response.is_allow response.reason;
    obligations = obligations_of response.reason;
  }

  unfoldable pub evaluate : PolicyRequest → Result PolicyError Decision
  evaluate req = do
    principal ← to_uid req.principal
    action ← action_uid req.action
    resource ← to_uid req.resource
    ctx ← map_err context (c.from_json_value req.context)
    r ← map_err request (c.new_request principal action resource ctx)
    ok (decision (c.is_authorized r))

  abbrev pub or_deny : Result PolicyError Decision → Decision
  or_deny (ok d) = d
  or_deny (err e) = deny_with (concat "policy error: " (error_text e))

  -- `PolicyEngine::is_authorized` of the engine
  unfoldable pub cedar_engine : PolicyEngine
  cedar_engine req = or_deny (evaluate req)
