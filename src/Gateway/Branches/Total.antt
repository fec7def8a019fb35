-- ===== src/Gateway/Branches/Total.antt =====
-- crates/gateway/src/lib.rs: the branches of `complete`, put together.
use mathlib.Core.List.{append-nil}
use frontkeep.Base.{
  String, ◌≡◌, refl, sym, ap, subst, ◌≢◌, inl, inr, true, false, Option, none, some, [], ◌∷◌, ◌==◌,
  eq_iff, arith, Bool-cases, Option-cases, Result, err, ok, join, get_key,
}
use frontkeep.Base.Float.{Float}
use frontkeep.Gateway.Branches.{serve-eq, served-IsServed, IsRefused, IsFailed, IsServed}
use frontkeep.Gateway.Call.{
  deny_auth, budget_spent, invoke_query, sent, log_denial, GatewayError, unauthorized,
  project_killed, project_inactive, budget_exceeded, unknown_model, no_provider, policy_denied,
  guardrail_blocked, Denial, Gateway, GatewayResponse, Admitted, Caller,
}
use frontkeep.Gateway.Complete.{admit, serve, complete}
use frontkeep.Gateway.Guardrails.{scan_input, Regex}
use frontkeep.Gateway.Keys.{resolve_key}
use frontkeep.Gateway.Provider.{resolve, ChatRequest, ModelInfo, ChatResponse}
use frontkeep.Gateway.Reads.{resolve_key-project}
use frontkeep.Gateway.Served.{admit-IsAdmitted, IsAdmitted}
use frontkeep.Gateway.Tables.{ProjectRuntime, GatewayDb}
use frontkeep.Policy.Engine.{allowed}
use frontkeep.Storage.Audit.{AuditRecord}

module _ {F : Float} (regex : Regex) (sha256_hex : String → String) (g : Gateway F) (c : Caller)
    (key : String) (req : ChatRequest F) (db : GatewayDb F) where
  -- The check that refuses a request of a known key, when the checks before it passed.
  pub data IsDenial (rt : ProjectRuntime F) : GatewayError → Type 0 where
    was_inactive : rt.lifecycle ≢ "active" → IsDenial rt project_inactive
    was_killed : rt.lifecycle ≡ "active" → rt.killed ≡ true → IsDenial rt project_killed
    was_overspent :
        rt.lifecycle ≡ "active"
        → rt.killed ≡ false
        → budget_spent rt ≡ true
        → IsDenial rt budget_exceeded
    was_unknown :
        rt.lifecycle ≡ "active"
        → rt.killed ≡ false
        → budget_spent rt ≡ false
        → resolve g.registry req.model ≡ none
        → IsDenial rt (unknown_model req.model)
    was_forbidden :
        (model : ModelInfo F)
        → rt.lifecycle ≡ "active"
        → rt.killed ≡ false
        → budget_spent rt ≡ false
        → resolve g.registry req.model ≡ some model
        → allowed (g.policy (invoke_query c rt model)) ≡ false
        → IsDenial rt (policy_denied (join (g.policy (invoke_query c rt model)).reasons "; "))
    was_guarded :
        (model : ModelInfo F) (reason : String)
        → rt.lifecycle ≡ "active"
        → rt.killed ≡ false
        → budget_spent rt ≡ false
        → resolve g.registry req.model ≡ some model
        → allowed (g.policy (invoke_query c rt model)) ≡ true
        → (scan_input regex g.guardrails g.mode req.messages).1.blocked ≡ some reason
        → IsDenial rt (guardrail_blocked reason)
    was_unrouted :
        (model : ModelInfo F)
        → rt.lifecycle ≡ "active"
        → rt.killed ≡ false
        → budget_spent rt ≡ false
        → resolve g.registry req.model ≡ some model
        → allowed (g.policy (invoke_query c rt model)) ≡ true
        → (scan_input regex g.guardrails g.mode req.messages).1.blocked ≡ none
        → get_key g.providers model.provider ≡ none
        → IsDenial rt (no_provider model.provider)

  admit_known-IsDenial :
      (rt : ProjectRuntime F) (d : Denial) (model : ModelInfo F)
      → admit regex g c rt req ≡ err d
      → rt.lifecycle ≡ "active"
      → rt.killed ≡ false
      → budget_spent rt ≡ false
      → resolve g.registry req.model ≡ some model
      → IsDenial rt d.error
  unfolding admit
  admit_known-IsDenial rt d model h live running funded known =
      let input = (scan_input regex g.guardrails g.mode req.messages).1 in
      elim (Bool-cases (allowed (g.policy (invoke_query c rt model)))) [
        | inr refused ↦
            subst (IsDenial rt) (ground (arith, eq_iff rt.lifecycle "active"))
              (was_forbidden model live running funded known refused)
        | inl permitted ↦ elim (Option-cases input.blocked) [
          | inr (reason, hit) ↦
              subst (IsDenial rt) (ground (arith, eq_iff rt.lifecycle "active"))
                (was_guarded model reason live running funded known permitted hit)
          | inl clean ↦
              let missing : get_key g.providers model.provider ≡ none =
                ground (arith, eq_iff rt.lifecycle "active") in
              subst (IsDenial rt) {x = no_provider model.provider}
                (ground (arith, eq_iff rt.lifecycle "active"))
                (was_unrouted model live running funded known permitted clean missing)
        ]
      ]

  -- A check that fails is the first of its order that does, and gives its own error.
  pub admit-IsDenial :
      (rt : ProjectRuntime F) (d : Denial) → admit regex g c rt req ≡ err d → IsDenial rt d.error
  unfolding admit
  admit-IsDenial rt d h =
      let live = eq_iff rt.lifecycle "active" in
      elim (Bool-cases (rt.lifecycle == "active")) [
        | inr off ↦
            subst (IsDenial rt) {x = project_inactive} (ground arith)
              (was_inactive (ground (arith, live)))
        | inl on ↦ elim (Bool-cases rt.killed) [
          | inl dead ↦
              subst (IsDenial rt) {x = project_killed} (ground arith) (was_killed (live.0 on) dead)
          | inr running ↦ elim (Bool-cases (budget_spent rt)) [
            | inl over ↦
                subst (IsDenial rt) {x = budget_exceeded} (ground arith)
                  (was_overspent (live.0 on) running over)
            | inr funded ↦ elim (Option-cases (resolve g.registry req.model)) [
              | inl missing ↦
                  subst (IsDenial rt) {x = unknown_model req.model} (ground arith)
                    (was_unknown (live.0 on) running funded missing)
              | inr (model, known) ↦
                  admit_known-IsDenial rt d model h (live.0 on) running funded known
            ]
          ]
        ]
      ]

  -- How a completion ends.
  pub data IsCompleted (out : GatewayDb F × Result GatewayError (GatewayResponse F)) : Type 0 where
    no_key :
        resolve_key sha256_hex key db ≡ none
        → (r : IsRefused db out) → r.error ≡ unauthorized
        → IsCompleted out
    stopped :
        (rt : ProjectRuntime F)
        → resolve_key sha256_hex key db ≡ some rt
        → (r : IsRefused db out) → IsDenial rt r.error
        → IsCompleted out
    failed : IsFailed regex sha256_hex g c key req db out → IsCompleted out
    finished : IsServed regex sha256_hex g c key req db out → IsCompleted out

  log_denial-IsRefused :
      (e : GatewayError) (log : Option AuditRecord)
      → (r : IsRefused db (log_denial (record { error = e; log = log }) db, err e)) × (r.error ≡ e)
  log_denial-IsRefused e none = (
    record {
      error = e;
      log = [];
      result = refl;
      written = ap (λ l. record db { audit_log = l }) (sym (append-nil db.audit_log));
      short = omega arith;
    },
    refl,
  )
  log_denial-IsRefused e (some rec) = (
    record { error = e; log = rec ∷ []; result = refl; written = refl; short = omega arith },
    refl,
  )

  serve-IsCompleted :
      (rt : ProjectRuntime F) (a : Admitted F)
      → resolve_key sha256_hex key db ≡ some rt
      → IsAdmitted regex g c rt req a
      → (answer : Result String ChatResponse)
      → a.provider a.model.route_model (sent rt a req) ≡ answer
      → IsCompleted (serve regex g c rt a req db)
  unfolding serve
  serve-IsCompleted rt a owned checked (ok resp) h =
      let (verified, found) = resolve_key-project sha256_hex key db rt owned in
      subst IsCompleted (sym (serve-eq regex sha256_hex g c key req db rt a resp found h))
        (finished (served-IsServed regex sha256_hex g c key req db rt a resp owned checked h))
  serve-IsCompleted rt a owned checked (err e) h =
      rw (h, serve)
        (failed (record {
          call = record { rt = rt; admitted = a; owned = owned; checked = checked; chat = refl };
          text = e;
          answer = h;
          result = refl;
          written = refl;
        }))

  -- Every completion ends in one of these ways: the key is unknown or revoked; a check refuses,
  -- the first that fails, with its own error; the provider fails; or the completion is served.
  -- Up to the provider's call nothing is written but an audit record of the refusal.
  pub complete-IsCompleted : IsCompleted (complete regex sha256_hex g c key req db)
  unfolding complete
  complete-IsCompleted = elim (Option-cases (resolve_key sha256_hex key db)) [
    | inl unknown_key ↦
        rw (unknown_key, complete)
          (no_key unknown_key
            (record {
              error = unauthorized;
              log = deny_auth c ∷ [];
              result = refl;
              written = refl;
              short = omega arith;
            })
            refl)
    | inr (rt, owned) ↦ rw (owned, complete) (go rt owned (admit regex g c rt req) refl)
  ]
    where
      go :
          (rt : ProjectRuntime F)
          → resolve_key sha256_hex key db ≡ some rt
          → (r : Result Denial (Admitted F)) → admit regex g c rt req ≡ r
          → IsCompleted (elim (admit regex g c rt req) [
            | err d ↦ (log_denial d db, err d.error)
            | ok a ↦ serve regex g c rt a req db
          ])
      go rt owned (err d) h =
          let (r, same) = log_denial-IsRefused d.error d.log in
          rw h (stopped rt owned r (subst (IsDenial rt) (sym same) (admit-IsDenial rt d h)))
      go rt owned (ok a) h =
          rw h (serve-IsCompleted rt a owned (admit-IsAdmitted regex g c rt req a h) _ refl)
