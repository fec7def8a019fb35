-- ===== src/Gateway/Tests.antt =====
-- crates/gateway: calls at concrete inputs. Money is whole numbers here and the one expression is a
-- text that must be all of the message.
use frontkeep.Base.{
  ℕ, ◌+◌, ◌-◌, ◌*◌, ◌/◌, String, ◌≡◌, refl, true, false, not, Option, none, some, List, [], ◌∷◌,
  ◌==◌, ltb, leb, eqb, if◌then◌else◌, length, any, is_some, Result, ok,
}
use frontkeep.Base.Float.{Float}
use frontkeep.Base.Json.{json, Json, number, str}
use frontkeep.Gateway.Branches.Total.{complete-IsCompleted, IsCompleted}
use frontkeep.Gateway.Call.{GatewayError, Gateway, GatewayResponse, Caller}
use frontkeep.Gateway.Complete.{admit, settle, serve, complete}
use frontkeep.Gateway.Consulted.{run_tool_loop-consults}
use frontkeep.Gateway.Guardrails.{
  builtin, scan_input, scan_output, Regex, ChatMessage, block, redact, pii, secret, enforce, Rule,
}
use frontkeep.Gateway.Keys.{
  get_project, ensure_project, set_killed, add_spend, record_usage, project_spend, mint_key,
  verify_key, resolve_key,
}
use frontkeep.Gateway.Killed.{run, killed_of, chats_of, GatewayCall, registers, completes}
use frontkeep.Gateway.Killed.Run.{run-killed}
use frontkeep.Gateway.Provider.{Provider, insert, from_models, resolve, ChatRequest, ModelInfo}
use frontkeep.Gateway.Redaction.{all_quiet, scan_input-enforce, builtin_ordered}
use frontkeep.Gateway.Tables.{GatewayDb}
use frontkeep.Gateway.ToolLoop.{parse_tool_call, rounds, run_tool_loop, ToolExecutor}
use frontkeep.Policy.Engine.{PolicyEngine, allow}
use frontkeep.Storage.Env.{Env}

abbrev whole : Float
whole = record {
  F64 = ℕ;
  F32 = ℕ;
  zero = 0;
  of_nat = λ n. n;
  tenths = λ n. n / 10;
  add = λ a b. a + b;
  sub = λ a b. a - b;
  mul = λ a b. a * b;
  div = λ a b. a / b;
  lt = ltb;
  le = leb;
  text4 = λ a. "";
  text2 = λ a. "";
  json = number;
}

abbrev exact : Regex
exact = record {
  count = λ pattern text. if pattern == text then 1 else 0;
  replace_all = λ pattern text new. if pattern == text then new else text;
}

abbrev rules : List Rule
rules =
    record { id = "name"; category = pii; action = redact; re = "bob" }
    ∷ record { id = "key"; category = secret; action = block; re = "AKIA" }
    ∷ []

abbrev hello : List ChatMessage
hello = record { role = "user"; content = "bob" } ∷ record { role = "user"; content = "AKIA" } ∷ []

abbrev allow_all : PolicyEngine
allow_all query = record { effect = allow; reasons = []; obligations = [] }

abbrev echo : Provider whole
echo model req =
    ok (record { content = "hi"; prompt_tokens = 1000; completion_tokens = 2000; model = model })

abbrev small : ModelInfo whole
small = record {
  model_ref = "model:small";
  provider = "mock";
  route_model = "small";
  data_classes = [];
  cost_in = 1;
  cost_out = 2;
}

abbrev gateway : Gateway whole
gateway = record {
  policy = allow_all;
  guardrails = rules;
  registry = from_models (small ∷ []);
  providers = ("mock", echo) ∷ [];
  mode = enforce;
}

abbrev at : ℕ → Env
at now = record { now = now; uid = "k1"; audit_uid = "audit" }

abbrev caller : Caller
caller = record { env = at 7; latency_ms = 3; trace_id = none; data_class = none }

abbrev asks : ChatRequest whole
asks = record {
  model = "small";
  messages = record { role = "user"; content = "bob" } ∷ [];
  max_tokens = none;
  temperature = none;
  user = some "mallory";
}

abbrev no_rows : GatewayDb whole
no_rows = record { runtimes = []; keys = []; usage = []; audit_log = []; chats = [] }

-- The digest that tells texts apart: the text itself.
abbrev same_text : String → String
same_text s = s

abbrev opened : GatewayDb whole
opened =
    (mint_key same_text (at 2) "fk_secret" "p1" none
      (ensure_project (at 1) "p1" 10 "internal" no_rows)).0

complete-IsCompleted_example :
    IsCompleted exact same_text gateway caller "fk_secret" asks opened
      (complete exact same_text gateway caller "fk_secret" asks opened)
complete-IsCompleted_example =
    complete-IsCompleted exact same_text gateway caller "fk_secret" asks opened

-- The call is served: it costs 5, and the request went out redacted and in the project's name.
served_example :
    project_spend "p1" (complete exact same_text gateway caller "fk_secret" asks opened).0 ≡ 5
unfolding complete admit serve settle resolve_key verify_key get_project add_spend record_usage
    project_spend mint_key ensure_project resolve from_models insert scan_input scan_output
served_example = refl

abbrev killing : List (Env × GatewayCall whole)
killing =
    (
      at 4,
      registers
          (record {
            project_id = "p1";
            budget_usd = 5;
            spent_usd = 0;
            killed = false;
            data_class = "public";
            owner = "o";
            manager = "m";
            cost_group = "";
            cost_center = "";
            classification = "poc";
            lifecycle = "active";
            registered = true;
          })
          "P" "",
    )
    ∷ (at 5, completes gateway caller "fk_secret" asks)
    ∷ []

run-killed_example :
    (killed_of "p1" (run exact same_text (set_killed (at 3) "p1" true opened) killing) ≡ some true)
    × (chats_of "p1" (run exact same_text (set_killed (at 3) "p1" true opened) killing) ≡ [])
unfolding set_killed get_project ensure_project mint_key
run-killed_example =
    run-killed exact same_text "p1" (set_killed (at 3) "p1" true opened) killing refl
      (refl, (refl, tt))

scan_input-enforce_example :
    is_some (scan_input exact builtin enforce hello).1.blocked
    ≡ not (all_quiet exact (scan_input exact builtin enforce hello).0 builtin)
scan_input-enforce_example = scan_input-enforce exact builtin hello builtin_ordered

-- A model that calls a tool first and answers then.
abbrev careful : Provider whole
careful model req = ok (record {
  content = if eqb (length req.messages) 1 then "{\"tool\":\"read_file\"}" else "fine";
  prompt_tokens = 1;
  completion_tokens = 1;
  model = model;
})

abbrev one_call : String → Option Json
one_call text =
    if text == "{\"tool\":\"read_file\"}"
    then some (json (("tool", str "read_file") ∷ []))
    else none

abbrev reader : ToolExecutor
reader = record {
  tools = record { name = "read_file"; description = "Read a file." } ∷ [];
  call = λ name args. ok "fn main() {}";
}

abbrev asked :
    Caller
    → ChatRequest whole
    → GatewayDb whole
    → GatewayDb whole × Result GatewayError (GatewayResponse whole)
asked c req db =
    complete exact same_text (record gateway { providers = ("mock", careful) ∷ [] }) c "fk_secret"
      req db

run_tool_loop-consults_example :
    any
      (λ name. "read_file" == name)
      (run_tool_loop asked one_call "small" reader
        (some "read_file")
        (λ n. "3")
        "You review."
        "Is it safe?"
        3
        (λ n. caller)
        opened).0.called
    ≡ true
unfolding run_tool_loop rounds parse_tool_call complete admit serve settle resolve_key verify_key
    get_project add_spend record_usage mint_key ensure_project resolve from_models insert scan_input
    scan_output
run_tool_loop-consults_example =
    run_tool_loop-consults asked one_call "small" reader (λ n. "3") "read_file" "You review."
      "Is it safe?" 3 (λ n. caller) opened refl
