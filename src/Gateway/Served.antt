-- ===== src/Gateway/Served.antt =====
-- crates/gateway/src/lib.rs: what a completion that succeeds has passed and what it leaves.
use frontkeep.Base.{◌≡◌, true, false, none, some, eq_iff, arith, ok, get_key}
use frontkeep.Base.Float.{Float}
use frontkeep.Gateway.Call.{budget_spent, invoke_query, Gateway, Admitted, Caller}
use frontkeep.Gateway.Complete.{admit}
use frontkeep.Gateway.Guardrails.{scan_input, Regex}
use frontkeep.Gateway.Provider.{resolve, ChatRequest}
use frontkeep.Gateway.Tables.{ProjectRuntime}
use frontkeep.Policy.Engine.{allowed}

module _ {F : Float} (regex : Regex) where
  -- All the checks passed, and these are what they found.
  pub record IsAdmitted (g : Gateway F) (c : Caller) (rt : ProjectRuntime F) (req : ChatRequest F)
      (a : Admitted F) : Type 0 where
    pub live : rt.lifecycle ≡ "active"
    pub running : rt.killed ≡ false
    pub funded : budget_spent rt ≡ false
    pub known : resolve g.registry req.model ≡ some a.model
    pub permitted : allowed (g.policy (invoke_query c rt a.model)) ≡ true
    pub scanned : (scan_input regex g.guardrails g.mode req.messages).0 ≡ a.messages
    pub unblocked : (scan_input regex g.guardrails g.mode req.messages).1.blocked ≡ none
    pub routed : get_key g.providers a.model.provider ≡ some a.provider

  pub admit-IsAdmitted :
      (g : Gateway F) (c : Caller) (rt : ProjectRuntime F) (req : ChatRequest F) (a : Admitted F)
      → admit regex g c rt req ≡ ok a
      → IsAdmitted g c rt req a
  unfolding admit
  admit-IsAdmitted g c rt req a h = record {
    live = ground (arith, eq_iff rt.lifecycle "active");
    running = ground arith;
    funded = ground arith;
    known = ground arith;
    permitted = ground arith;
    scanned = ground arith;
    unblocked = ground arith;
    routed = ground arith;
  }
