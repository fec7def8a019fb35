-- ===== src/Gateway/ToolLoop.antt =====
-- crates/gateway/src/tools.rs: the bounded loop in which a model calls tools. The JSON parser and
-- the tools are parameters. `called` is a trace of the tools that were run, in order.
use mathlib.Core.Option
use Prim.Native.Char.{code}
use Prim.Native.Nat.{max}
use frontkeep.Base.{
  ℕ, zero, suc, ◌+◌, ◌-◌, String, Bool, false, not, ◌||◌, Option, none, some, List, [], ◌∷◌, ◌++◌,
  ◌==◌, eqb, if◌then◌else◌, unwrap_or, is_some, or_else, Result, err, ok, join, concat,
}
use frontkeep.Base.Float.{Float}
use frontkeep.Base.Json.{get_value, get_str, Json, null}
use frontkeep.Gateway.Call.{GatewayError, provider_error, GatewayResponse, Caller}
use frontkeep.Gateway.Guardrails.{ChatMessage}
use frontkeep.Gateway.Provider.{ChatRequest}
use frontkeep.Gateway.Tables.{GatewayDb}

pub record ToolDef : Type 0 where
  pub name : String
  pub description : String

-- `dyn ToolExecutor`
pub record ToolExecutor : Type 0 where
  pub tools : List ToolDef
  pub call : String → Json → Result String String

pub record ToolLoopOutcome (F : Float) : Type 0 where
  pub answer : String
  pub cost_usd : F.F64

-- The text from here to the brace that brings the depth to zero. Braces are ASCII, so a scan by
-- characters finds the same spans as one by bytes.
abbrev pub balanced : ℕ → String → Option String
balanced depth String.[] = none
balanced depth (String.◌∷◌ c s) =
    let deeper = balanced (depth + 1) s in
    let shallower = balanced (depth - 1) s in
    let level = balanced depth s in
    let more : Option String → Option String = Option.map (String.◌∷◌ c) in
    if eqb (code c) b'{'
    then more deeper
    else if eqb (code c) b'}'
    then if eqb depth 1 then some (String.◌∷◌ c String.[]) else more shallower
    else more level

-- The tool and the arguments of a parsed object.
abbrev as_call : Option Json → Option (String × Json)
as_call none = none
as_call (some v) = elim (get_str v "tool") [
  | none ↦ none
  | some name ↦ some (name, unwrap_or (get_value v "args") null)
]

abbrev parsed : (String → Option Json) → Option String → Option (String × Json)
parsed from_str none = none
parsed from_str (some text) = as_call (from_str text)

unfoldable pub parse_tool_call : (String → Option Json) → String → Option (String × Json)
parse_tool_call from_str String.[] = none
parse_tool_call from_str (String.◌∷◌ c s) =
    let rest = parse_tool_call from_str s in
    if eqb (code c) b'{' then or_else (parsed from_str (balanced 0 (String.◌∷◌ c s))) rest else rest

abbrev catalog : List ToolDef → List String
catalog [] = []
catalog (t ∷ ts) = concat "- " (concat t.name (concat ": " t.description)) ∷ catalog ts

abbrev required_text : Option String → String
required_text none = ""
required_text (some t) =
    concat "\nRequired before final answer: call `" (concat t "` at least once.")

abbrev prompt : ToolExecutor → String → String → Option String → String
prompt tools grounding question require_tool = concat grounding (
    concat
      "\n\nYou may call a tool by replying with ONLY a JSON object of the form tool-name plus args (keys \"tool\" and \"args\"). Available tools:\n"
      (concat (join (catalog tools.tools) "\n") (
        concat
          "\n\nAnswer ONLY from tool outputs. If the data isn't available, say exactly \"I don't have that data.\" When you can answer, answer the Question exactly in the format it requests."
          (concat (required_text require_tool) (concat "\n\nQuestion: " question)))))

abbrev user_message : String → ChatMessage
user_message content = record { role = "user"; content = content }

abbrev assistant_message : String → ChatMessage
assistant_message content = record { role = "assistant"; content = content }

abbrev push_back : String → String
push_back tool = concat "You have not called `" (
    concat tool (
      concat "` yet. Inspect the actual contents with `" (
        concat tool (
          concat "` before answering — do not answer from the file listing alone. Call `"
            (concat tool "` now.")))))

abbrev outcome_text : Result String String → String
outcome_text (ok text) = text
outcome_text (err e) = concat "tool error: " e

abbrev pub is_required : Option String → String → Bool
is_required none name = false
is_required (some t) name = t == name

-- The variables of the loop.
pub record LoopState (F : Float) : Type 0 where
  pub db : GatewayDb F
  pub messages : List ChatMessage
  pub last : String
  pub cost_usd : F.F64
  pub required_satisfied : Bool
  pub called : List String

module _ {F : Float} (tools : ToolExecutor) (require_tool : Option String) where
  abbrev pub opening : String → String → GatewayDb F → LoopState F
  opening grounding question db = record {
    db = db;
    messages = user_message (prompt tools grounding question require_tool) ∷ [];
    last = "";
    cost_usd = F.zero;
    required_satisfied = not (is_some require_tool);
    called = [];
  }

  -- A round after the model's reply, by the call that is read from it: the loop's state, and its
  -- answer if it ends here.
  abbrev pub react :
      LoopState F
      → GatewayResponse F
      → Option (String × Json)
      → LoopState F × Option (ToolLoopOutcome F)
  react st resp (some (name, args)) = (
    record st {
      cost_usd = F.add st.cost_usd resp.cost_usd;
      last = resp.content;
      required_satisfied = is_required require_tool name || st.required_satisfied;
      called = st.called ++ name ∷ [];
      messages =
          st.messages
          ++ assistant_message resp.content
            ∷ user_message (
                concat "Tool "
                  (concat name (concat " result: " (outcome_text (tools.call name args)))))
            ∷ [];
    },
    none,
  )
  react st resp none =
      let cost_usd = F.add st.cost_usd resp.cost_usd in
      if st.required_satisfied
      then (
        record st { cost_usd = cost_usd; last = resp.content },
        some (record { answer = resp.content; cost_usd = cost_usd }),
      )
      else (
        record st {
          cost_usd = cost_usd;
          last = resp.content;
          messages =
              st.messages
              ++ assistant_message resp.content
                ∷ user_message (push_back (unwrap_or require_tool ""))
                ∷ [];
        },
        none,
      )

module _ {F : Float} (from_str : String → Option Json) (tools : ToolExecutor)
    (require_tool : Option String) where
  -- The round after the gateway's answer: its state, and the error or the answer that ends the
  -- loop.
  abbrev pub heard :
      LoopState F
      → GatewayDb F
      → Result GatewayError (GatewayResponse F)
      → LoopState F × Result GatewayError (Option (ToolLoopOutcome F))
  heard st db (err e) = (record st { db = db }, err e)
  heard st db (ok resp) =
      let called = parse_tool_call from_str resp.content in
      let (st', ends) = react tools require_tool (record st { db = db }) resp called in
      (st', ok ends)

-- The end of the loop, or the rounds that are left.
abbrev pub or_later :
    {F : Float}
    → LoopState F × Result GatewayError (Option (ToolLoopOutcome F))
    → LoopState F × Result GatewayError (ToolLoopOutcome F)
    → LoopState F × Result GatewayError (ToolLoopOutcome F)
or_later (st, err e) later = (st, err e)
or_later (st, ok (some outcome)) later = (st, ok outcome)
or_later (st, ok none) later = later

module _ {F : Float}
    (complete : Caller
      → ChatRequest F
      → GatewayDb F
      → GatewayDb F × Result GatewayError (GatewayResponse F))
    (from_str : String → Option Json) (model : String) (tools : ToolExecutor)
    (require_tool : Option String) where
  abbrev pub round :
      Caller → LoopState F → LoopState F × Result GatewayError (Option (ToolLoopOutcome F))
  round caller st =
      let (db, answer) =
        complete caller
          (record {
            model = model;
            messages = st.messages;
            max_tokens = none;
            temperature = none;
            user = none;
          })
          st.db in
      heard from_str tools require_tool st db answer

  abbrev exhausted : String → LoopState F → Result GatewayError (ToolLoopOutcome F)
  exhausted text st =
      if not st.required_satisfied
      then err (
          provider_error (
            concat "required tool '" (
              concat (unwrap_or require_tool "") (
                concat "' was not called before the tool loop exhausted "
                  (concat text " round(s)")))))
      else ok (record { answer = st.last; cost_usd = st.cost_usd })

  -- The loop with so many rounds left; each has its own clock and ids. `text` is the
  -- number of rounds in the message.
  unfoldable pub rounds :
      (ℕ → Caller)
      → String
      → ℕ
      → LoopState F
      → LoopState F × Result GatewayError (ToolLoopOutcome F)
  rounds callers text zero st = (st, exhausted text st)
  rounds callers text (suc n) st =
      let ended = round (callers n) st in or_later ended (rounds callers text n ended.0)

  -- `run_tool_loop`: `callers` gives the clock and the ids of each round, `to_string` prints a
  -- number.
  unfoldable pub run_tool_loop :
      (ℕ → String)
      → String
      → String
      → ℕ
      → (ℕ → Caller)
      → GatewayDb F
      → LoopState F × Result GatewayError (ToolLoopOutcome F)
  run_tool_loop to_string grounding question max_rounds callers db =
      rounds callers (to_string max_rounds) (max max_rounds 1)
        (opening tools require_tool grounding question db)
