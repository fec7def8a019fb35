-- ===== src/Gateway/Branches.antt =====
-- crates/gateway/src/lib.rs: `complete` on every branch.
pub mod Total
use frontkeep.Base.{
  ◌≤◌, String, ◌≡◌, refl, some, List, [], ◌∷◌, ◌++◌, ◌==◌, if◌then◌else◌, length, Result, ok, err,
}
use frontkeep.Base.Float.{Float}
use frontkeep.Gateway.Call.{
  sent, cost, usage_event, log_audit, warnings, warn_budget, completion, GatewayError,
  provider_error, Gateway, GatewayResponse, Admitted, Caller,
}
use frontkeep.Gateway.Complete.{response, settle, serve}
use frontkeep.Gateway.Guardrails.{total, Regex}
use frontkeep.Gateway.Keys.{get_project, add_spend, record_usage, resolve_key}
use frontkeep.Gateway.Provider.{ChatRequest, ChatResponse}
use frontkeep.Gateway.Reads.{add_spend_lem, resolve_key-project}
use frontkeep.Gateway.Served.{IsAdmitted}
use frontkeep.Gateway.Tables.{ProjectRuntime, GatewayDb}
use frontkeep.Storage.Audit.{AuditRecord}
use frontkeep.Workflow.Engine.{project_id}

module _ {F : Float} (db : GatewayDb F) where
  -- A completion that a check refuses: one audit record at most is written, and nothing else.
  pub record IsRefused (out : GatewayDb F × Result GatewayError (GatewayResponse F)) : Type 0 where
    pub error : GatewayError
    pub log : List AuditRecord
    pub result : out.1 ≡ err error
    pub written : out.0 ≡ record db { audit_log = db.audit_log ++ log }
    pub short : length log ≤ 1

module _ {F : Float} (regex : Regex) (sha256_hex : String → String) (g : Gateway F) (c : Caller)
    (key : String) (req : ChatRequest F) (db : GatewayDb F) where
  -- What went out to a provider: the key's project passed every check, and the request carries the
  -- scanned messages and that project as its user.
  pub record IsSent (out : GatewayDb F × Result GatewayError (GatewayResponse F)) : Type 0 where
    pub rt : ProjectRuntime F
    pub admitted : Admitted F
    pub owned : resolve_key sha256_hex key db ≡ some rt
    pub checked : IsAdmitted regex g c rt req admitted
    pub chat :
        out.0.chats
        ≡ db.chats
          ++ (admitted.model.provider, admitted.model.route_model, sent rt admitted req) ∷ []

  -- A completion whose provider failed: the error is passed on and nothing else is written.
  pub record IsFailed (out : GatewayDb F × Result GatewayError (GatewayResponse F)) : Type 0 where
    pub call : IsSent out
    pub text : String
    pub answer :
        call.admitted.provider call.admitted.model.route_model (sent call.rt call.admitted req)
        ≡ err text
    pub result : out.1 ≡ err (provider_error text)
    pub written : out.0 ≡ record db { chats = out.0.chats }

  -- A completion that succeeds: the response carries the provider's answer and its cost; the cost
  -- is added to the spend of the key's project and of no other; one usage event attributes it; the
  -- budget warning is written exactly when the call crosses the soft cap, and then the record of
  -- the completion.
  pub record IsServed (out : GatewayDb F × Result GatewayError (GatewayResponse F)) : Type 0 where
    pub call : IsSent out
    pub resp : ChatResponse
    pub answer :
        call.admitted.provider call.admitted.model.route_model (sent call.rt call.admitted req)
        ≡ ok resp
    pub result : out.1 ≡ ok (response regex g c call.admitted resp)
    pub reads :
        (other : String)
        → get_project other out.0 ≡ (
            if other == call.rt.project_id
            then some (record call.rt {
              spent_usd = F.add call.rt.spent_usd (cost call.admitted.model resp);
            })
            else get_project other db)
    pub used :
        out.0.usage
        ≡ db.usage
          ++ record {
            id = c.env.uid;
            ts = c.env.now;
            event = usage_event c call.rt call.admitted.model resp;
          }
            ∷ []
    pub logged :
        out.0.audit_log
        ≡ db.audit_log
          ++ warnings c call.rt (F.add call.rt.spent_usd (cost call.admitted.model resp))
          ++ completion c call.rt call.admitted.model resp ∷ []

  abbrev pub sending : ProjectRuntime F → Admitted F → GatewayDb F
  sending rt a = record db {
    chats = db.chats ++ (a.model.provider, a.model.route_model, sent rt a req) ∷ [];
  }

  -- The tables after a served completion.
  abbrev pub served : ProjectRuntime F → Admitted F → ChatResponse → GatewayDb F
  served rt a resp = log_audit (completion c rt a.model resp) (
      warn_budget c rt (F.add rt.spent_usd (cost a.model resp)) (
        record_usage c.env (usage_event c rt a.model resp)
          (add_spend c.env rt.project_id (cost a.model resp) (sending rt a)).0))

  spent_sending :
      (rt : ProjectRuntime F) (a : Admitted F) (amount : F.F64) (other : String)
      → get_project rt.project_id db ≡ some rt
      → ((add_spend c.env rt.project_id amount (sending rt a)).1 ≡ some (F.add rt.spent_usd amount))
        × (get_project other (add_spend c.env rt.project_id amount (sending rt a)).0 ≡ (
            if other == rt.project_id
            then some (record rt { spent_usd = F.add rt.spent_usd amount })
            else get_project other db))
  unfolding get_project
  spent_sending rt a amount other found =
      add_spend_lem c.env rt.project_id other amount (sending rt a) rt found

  pub serve-eq :
      (rt : ProjectRuntime F) (a : Admitted F) (resp : ChatResponse)
      → get_project rt.project_id db ≡ some rt
      → a.provider a.model.route_model (sent rt a req) ≡ ok resp
      → serve regex g c rt a req db ≡ (served rt a resp, ok (response regex g c a resp))
  unfolding serve settle
  serve-eq rt a resp found answer =
      let (total, reads) = spent_sending rt a (cost a.model resp) "" found in
      rw (answer, serve, settle, total) refl

  pub served-IsServed :
      (rt : ProjectRuntime F) (a : Admitted F) (resp : ChatResponse)
      → resolve_key sha256_hex key db ≡ some rt
      → IsAdmitted regex g c rt req a
      → a.provider a.model.route_model (sent rt a req) ≡ ok resp
      → IsServed (served rt a resp, ok (response regex g c a resp))
  unfolding record_usage add_spend get_project
  served-IsServed rt a resp owned checked answer =
      let (verified, found) = resolve_key-project sha256_hex key db rt owned in
      record {
        call = record { rt = rt; admitted = a; owned = owned; checked = checked; chat = refl };
        resp = resp;
        answer = answer;
        result = refl;
        reads = λ other. (spent_sending rt a (cost a.model resp) other found).1;
        used = refl;
        logged = refl;
      }
