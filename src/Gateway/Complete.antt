-- ===== src/Gateway/Complete.antt =====
-- crates/gateway/src/lib.rs: `complete`. It reads the key and the project once, runs its checks on
-- what it read, calls the provider and then writes. A failed check may write one audit record
-- before its error is returned. Database failures are not modelled but for the missing row.
use frontkeep.Base.{
  String, not, none, some, [], ◌∷◌, ◌++◌, ◌==◌, ◌>>=◌, ◌>>◌, ok_or, ensure, Result, err, ok, concat,
  get_key,
}
use frontkeep.Base.Float.{Float}
use frontkeep.Gateway.Call.{
  silent, trace, deny_auth, budget_spent, denied, invoke_query, policy_denial, unblocked, sent,
  cost, usage_event, log_audit, warn_budget, completion, log_denial, GatewayError, unauthorized,
  project_killed, project_inactive, budget_exceeded, unknown_model, no_provider, provider_error,
  row_not_found, Denial, Gateway, GatewayResponse, Admitted, Caller,
}
use frontkeep.Gateway.Guardrails.{scan_input, scan_output, Regex}
use frontkeep.Gateway.Keys.{add_spend, record_usage, resolve_key}
use frontkeep.Gateway.Provider.{resolve, ChatRequest, ChatResponse}
use frontkeep.Gateway.Tables.{ProjectRuntime, GatewayDb}
use frontkeep.Policy.Engine.{allowed}

module _ {F : Float} (regex : Regex) where
  -- The checks, in their order.
  unfoldable pub admit :
      Gateway F → Caller → ProjectRuntime F → ChatRequest F → Result Denial (Admitted F)
  admit g c rt req = do
    ensure (rt.lifecycle == "active")
        (denied c rt req (concat "project lifecycle is " rt.lifecycle) project_inactive)
    ensure (not rt.killed) (denied c rt req "project kill switch engaged" project_killed)
    ensure (not (budget_spent rt)) (denied c rt req "budget exceeded" budget_exceeded)
    model ← ok_or (resolve g.registry req.model) (silent (unknown_model req.model))
    let decision = g.policy (invoke_query c rt model)
    ensure (allowed decision) (policy_denial c rt model decision)
    let input = scan_input regex g.guardrails g.mode req.messages
    unblocked c rt model input.1
    provider ← ok_or (get_key g.providers model.provider) (silent (no_provider model.provider))
    ok (record {
      model = model;
      messages = input.0;
      verdicts = input.1.verdicts;
      provider = provider;
    })

  abbrev pub response : Gateway F → Caller → Admitted F → ChatResponse → GatewayResponse F
  response g c a resp = record {
    content = resp.content;
    trace_id = trace c;
    model = a.model.model_ref;
    provider = a.model.provider;
    cost_usd = cost a.model resp;
    prompt_tokens = resp.prompt_tokens;
    completion_tokens = resp.completion_tokens;
    guardrail_verdicts = a.verdicts ++ scan_output regex g.guardrails resp.content;
  }

  -- The writes after the provider's answer.
  unfoldable pub settle :
      Gateway F
      → Caller
      → ProjectRuntime F
      → Admitted F
      → ChatResponse
      → GatewayDb F
      → GatewayDb F × Result GatewayError (GatewayResponse F)
  settle g c rt a resp db =
      let (db', spent) = add_spend c.env rt.project_id (cost a.model resp) db in
      elim spent [
        | none ↦ (db', err row_not_found)
        | some new_spent ↦ (
          log_audit (completion c rt a.model resp)
              (warn_budget c rt new_spent (record_usage c.env (usage_event c rt a.model resp) db')),
          ok (response g c a resp),
        )
      ]

  -- From the provider's call on.
  unfoldable pub serve :
      Gateway F
      → Caller
      → ProjectRuntime F
      → Admitted F
      → ChatRequest F
      → GatewayDb F
      → GatewayDb F × Result GatewayError (GatewayResponse F)
  serve g c rt a req db =
      let out = sent rt a req in
      let db' : GatewayDb F = record db {
        chats = db.chats ++ (a.model.provider, a.model.route_model, out) ∷ [];
      } in
      elim (a.provider a.model.route_model out) [
        | err e ↦ (db', err (provider_error e))
        | ok resp ↦ settle g c rt a resp db'
      ]

  unfoldable pub complete :
      (String → String)
      → Gateway F
      → Caller
      → String
      → ChatRequest F
      → GatewayDb F
      → GatewayDb F × Result GatewayError (GatewayResponse F)
  complete sha256_hex g c virtual_key req db = elim (resolve_key sha256_hex virtual_key db) [
    | none ↦ (log_audit (deny_auth c) db, err unauthorized)
    | some rt ↦ elim (admit g c rt req) [
      | err d ↦ (log_denial d db, err d.error)
      | ok a ↦ serve g c rt a req db
    ]
  ]
