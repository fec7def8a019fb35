-- ===== src/Gateway/Consulted.antt =====
-- crates/gateway/src/tools.rs: the required tool in the loop.
use Prim.Native.Nat.{max}
use frontkeep.Base.{
  ℕ, zero, suc, String, ◌≡◌, refl, sym, ◌∙◌, true, not, ◌||◌, Option, none, some, [], ◌∷◌, ◌==◌,
  arith, any, any-append, is_some, is_ok, Result, err, ok,
}
use frontkeep.Base.Float.{Float}
use frontkeep.Base.Json.{Json}
use frontkeep.Gateway.Call.{GatewayError, GatewayResponse, Caller}
use frontkeep.Gateway.Provider.{ChatRequest}
use frontkeep.Gateway.Tables.{GatewayDb}
use frontkeep.Gateway.ToolLoop.{
  parse_tool_call, is_required, opening, react, heard, or_later, round, rounds, run_tool_loop,
  ToolExecutor, ToolLoopOutcome, LoopState,
}

module _ {F : Float} (tools : ToolExecutor) (require_tool : Option String) where
  -- The flag of the loop tells whether the required tool, if there is one, was called.
  abbrev pub IsFaithful : LoopState F → Type 0
  IsFaithful st =
      st.required_satisfied
      ≡ (not (is_some require_tool) || any (λ name. is_required require_tool name) st.called)

  pub react-IsFaithful :
      (st : LoopState F) (resp : GatewayResponse F) (call : Option (String × Json))
      → IsFaithful st
      → IsFaithful (react tools require_tool st resp call).0
  react-IsFaithful st resp (some (name, args)) h =
      ground (arith, h, any-append (λ n. is_required require_tool n) st.called (name ∷ []))
  react-IsFaithful st resp none h = ground (arith, h)

  -- A reply ends the loop only when the flag is set.
  pub react-ends :
      (st : LoopState F) (resp : GatewayResponse F) (call : Option (String × Json))
      (outcome : ToolLoopOutcome F)
      → (react tools require_tool st resp call).1 ≡ some outcome
      → (react tools require_tool st resp call).0.required_satisfied ≡ true
  react-ends st resp (some (name, args)) outcome h = ground arith
  react-ends st resp none outcome h = ground arith

module _ {F : Float} (from_str : String → Option Json) (tools : ToolExecutor)
    (require_tool : Option String) where
  heard-IsFaithful :
      (st : LoopState F) (db : GatewayDb F) (answer : Result GatewayError (GatewayResponse F))
      → IsFaithful tools require_tool st
      → IsFaithful tools require_tool (heard from_str tools require_tool st db answer).0
  heard-IsFaithful st db (err e) h = h
  heard-IsFaithful st db (ok resp) h =
      react-IsFaithful tools require_tool (record st { db = db }) resp
        (parse_tool_call from_str resp.content) h

  heard-ends :
      (st : LoopState F) (db : GatewayDb F) (answer : Result GatewayError (GatewayResponse F))
      (outcome : ToolLoopOutcome F)
      → (heard from_str tools require_tool st db answer).1 ≡ ok (some outcome)
      → (heard from_str tools require_tool st db answer).0.required_satisfied ≡ true
  heard-ends st db (err e) outcome h = cc
  heard-ends st db (ok resp) outcome h =
      react-ends tools require_tool (record st { db = db }) resp
        (parse_tool_call from_str resp.content) outcome (cc)

-- The state after the loop goes on keeps what the round and the later rounds keep.
or_later-keeps :
    {F : Float} (P : LoopState F → Type 0) (st : LoopState F)
    (r : Result GatewayError (Option (ToolLoopOutcome F)))
    (later : LoopState F × Result GatewayError (ToolLoopOutcome F))
    → ((outcome : ToolLoopOutcome F) → r ≡ ok (some outcome) → P st)
    → (is_ok later.1 ≡ true → P later.0)
    → is_ok (or_later (st, r) later).1 ≡ true
    → P (or_later (st, r) later).0
or_later-keeps P st (err e) later now then_ h = cc
or_later-keeps P st (ok (some outcome)) later now then_ h = now outcome refl
or_later-keeps P st (ok none) later now then_ h = then_ h

module _ {F : Float}
    (complete : Caller
      → ChatRequest F
      → GatewayDb F
      → GatewayDb F × Result GatewayError (GatewayResponse F))
    (from_str : String → Option Json) (model : String) (tools : ToolExecutor)
    (require_tool : Option String) where
  abbrev IsSettled : LoopState F → Type 0
  IsSettled st = IsFaithful tools require_tool st × st.required_satisfied ≡ true

  rounds-IsSettled :
      (callers : ℕ → Caller) (text : String) (n : ℕ) (st : LoopState F)
      → IsFaithful tools require_tool st
      → is_ok (rounds complete from_str model tools require_tool callers text n st).1 ≡ true
      → IsSettled (rounds complete from_str model tools require_tool callers text n st).0
  unfolding rounds
  rounds-IsSettled callers text zero st h ends = (h, ground (arith, ends))
  rounds-IsSettled callers text (suc n) st h ends =
      let ended = round complete from_str model tools require_tool (callers n) st in
      let kept : IsFaithful tools require_tool ended.0 =
        heard-IsFaithful from_str tools require_tool st _ _ h in
      or_later-keeps IsSettled ended.0 ended.1
        (rounds complete from_str model tools require_tool callers text n ended.0)
        (λ outcome q. (kept, heard-ends from_str tools require_tool st _ _ outcome q))
        (λ later. rounds-IsSettled callers text n ended.0 kept later) ends

module _ {F : Float}
    (complete : Caller
      → ChatRequest F
      → GatewayDb F
      → GatewayDb F × Result GatewayError (GatewayResponse F))
    (from_str : String → Option Json) (model : String) (tools : ToolExecutor)
    (to_string : ℕ → String) where
  -- When a tool is required, a loop that returns an answer has run that tool at least once,
  -- whatever the gateway and the model answered in each round.
  pub run_tool_loop-consults :
      (tool grounding question : String) (max_rounds : ℕ) (callers : ℕ → Caller) (db : GatewayDb F)
      → is_ok
          (run_tool_loop complete from_str model tools
            (some tool)
            to_string
            grounding
            question
            max_rounds
            callers
            db).1
        ≡ true
      → any
          (λ name. tool == name)
          (run_tool_loop complete from_str model tools
            (some tool)
            to_string
            grounding
            question
            max_rounds
            callers
            db).0.called
        ≡ true
  unfolding run_tool_loop
  run_tool_loop-consults tool grounding question max_rounds callers db ends =
      let (kept, satisfied) =
        rounds-IsSettled complete from_str model tools (some tool) callers (to_string max_rounds)
          (max max_rounds 1) (opening tools (some tool) grounding question db) refl ends in
      sym kept ∙ satisfied
