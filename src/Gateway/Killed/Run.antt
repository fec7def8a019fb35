-- ===== src/Gateway/Killed/Run.antt =====
-- crates/gateway: the requests to providers in a sequence of calls on a killed project.
use frontkeep.Base.{
  String, ◌≡◌, refl, sym, ap, subst, ◌∙◌, Bool, true, false, not, ◌||◌, some, List, [], ◌∷◌, ◌++◌,
  ◌==◌, eq_iff, arith, keep-append, All, Result, row_of-update,
}
use frontkeep.Base.Float.{Float}
use frontkeep.Gateway.Branches.{IsSent}
use frontkeep.Gateway.Branches.Total.{
  complete-IsCompleted, IsCompleted, no_key, stopped, failed, finished,
}
use frontkeep.Gateway.Call.{GatewayError, Gateway, GatewayResponse, Caller}
use frontkeep.Gateway.Guardrails.{Regex}
use frontkeep.Gateway.Keys.{
  runtime_key, get_project, set_killed, set_identity, set_budget, add_spend, set_ownership,
  set_lifecycle, set_classification, mint_key, revoke_key,
}
use frontkeep.Gateway.Killed.{
  step, run, killed_of, is_for, chats_of, Holds, killed_row, update-killed_of, ensure_project-Holds,
  set_registration-Holds, GatewayCall, ensures, kills, names, budgets, spends, registers, owns,
  lives, classifies, mints, revokes, completes,
}
use frontkeep.Gateway.Provider.{ChatRequest}
use frontkeep.Gateway.Reads.{resolve_key-project}
use frontkeep.Gateway.Tables.{RuntimeRow, GatewayDb}
use frontkeep.Storage.Env.{Env}
use frontkeep.Workflow.Engine.{project_id}

module _ {F : Float} where
  sent-Holds :
      (id project_id provider model : String) (out : ChatRequest F) (db db' : GatewayDb F)
      → out.user ≡ some project_id
      → db'.chats ≡ db.chats ++ (provider, model, out) ∷ []
      → (project_id == id) ≡ false
      → chats_of id db' ≡ chats_of id db
  sent-Holds id project_id provider model out db db' named chat other =
      ground (arith, keep-append (is_for id) db.chats (provider, model, out))

module _ {F : Float} (regex : Regex) (sha256_hex : String → String) where
  -- What went out was for a project that is not killed.
  IsSent-Holds :
      (id : String) (g : Gateway F) (c : Caller) (key : String) (req : ChatRequest F)
      (db : GatewayDb F) (out : GatewayDb F × Result GatewayError (GatewayResponse F))
      → (s : IsSent regex sha256_hex g c key req db out) → killed_of id db ≡ some true
      → ((s.rt.project_id == id) ≡ false) × (chats_of id out.0 ≡ chats_of id db)
  IsSent-Holds id g c key req db out s h =
      let (verified, found) = resolve_key-project sha256_hex key db s.rt s.owned in
      let alive = s.checked.running in
      let other : (s.rt.project_id == id) ≡ false =
        ground (arith, found, alive, eq_iff s.rt.project_id id) in
      (other, sent-Holds id s.rt.project_id _ _ _ db out.0 refl s.chat other)

  complete-Holds :
      (id : String) (g : Gateway F) (c : Caller) (key : String) (req : ChatRequest F)
      (db : GatewayDb F) (out : GatewayDb F × Result GatewayError (GatewayResponse F))
      → IsCompleted regex sha256_hex g c key req db out
      → killed_of id db ≡ some true
      → Holds id db out.0
  unfolding get_project
  complete-Holds id g c key req db out (no_key e r same) h =
      subst (Holds id db) (sym r.written) (h, refl)
  complete-Holds id g c key req db out (stopped rt owned r d) h =
      subst (Holds id db) (sym r.written) (h, refl)
  complete-Holds id g c key req db out (failed f) h =
      let (other, quiet) = IsSent-Holds id g c key req db out f.call h in
      (ap (killed_of id) f.written ∙ h, quiet)
  complete-Holds id g c key req db out (finished s) h =
      let (other, quiet) = IsSent-Holds id g c key req db out s.call h in
      (
        ground (
          arith,
          s.reads id,
          other,
          eq_iff id s.call.rt.project_id,
          eq_iff s.call.rt.project_id id,
        ),
        quiet,
      )

  -- Any call but one that switches the project back on.
  abbrev pub keeps_off : String → Env × GatewayCall F → Bool
  keeps_off id (env, kills other b) = b || not (other == id)
  keeps_off id _ = true

  set_killed-Holds :
      (env : Env) (id other : String) (b : Bool) (db : GatewayDb F)
      → (b || not (other == id)) ≡ true
      → killed_of id db ≡ some true
      → Holds id db (set_killed env other b db)
  unfolding set_killed get_project
  set_killed-Holds env id other b db k h =
      let write : RuntimeRow F → RuntimeRow F =
        λ row. record row { runtime = record row.runtime { killed = b }; updated_at = env.now } in
      let (row, found, dead) = killed_row id db h in
      (
        ground (
          arith,
          row_of-update runtime_key write other id db.runtimes (λ row. refl),
          found,
          eq_iff id other,
          eq_iff other id,
        ),
        refl,
      )

  step-Holds :
      (id : String) (db : GatewayDb F) (c : Env × GatewayCall F)
      → keeps_off id c ≡ true
      → killed_of id db ≡ some true
      → Holds id db (step regex sha256_hex db c)
  unfolding step set_killed set_identity set_budget add_spend set_ownership set_lifecycle
      set_classification mint_key revoke_key get_project
  step-Holds id db (env, ensures other budget class) k h =
      ensure_project-Holds env id other budget class db h
  step-Holds id db (env, kills other b) k h = set_killed-Holds env id other b db (ground arith) h
  step-Holds id db (env, names other name text) k h =
      (update-killed_of id other _ db (λ row. refl) (λ row. refl) h, refl)
  step-Holds id db (env, budgets other amount) k h =
      (update-killed_of id other _ db (λ row. refl) (λ row. refl) h, refl)
  step-Holds id db (env, spends other amount) k h =
      (update-killed_of id other _ db (λ row. refl) (λ row. refl) h, refl)
  step-Holds id db (env, registers new name text) k h =
      set_registration-Holds env id new name text db h
  step-Holds id db (env, owns other owner manager) k h =
      (update-killed_of id other _ db (λ row. refl) (λ row. refl) h, refl)
  step-Holds id db (env, lives other lifecycle) k h =
      (update-killed_of id other _ db (λ row. refl) (λ row. refl) h, refl)
  step-Holds id db (env, classifies other class) k h =
      (update-killed_of id other _ db (λ row. refl) (λ row. refl) h, refl)
  step-Holds id db (env, mints plaintext other name) k h = (h, refl)
  step-Holds id db (env, revokes key_id) k h = (h, refl)
  step-Holds id db (env, completes g c key req) k h =
      complete-Holds id g c key req db _ (complete-IsCompleted regex sha256_hex g c key req db) h

  -- Once a project is killed it stays so under every call but one that switches it back on, a
  -- registration included, and until then no request goes out to a provider for it, whatever
  -- completions are asked for, with whatever keys.
  pub run-killed :
      (id : String) (db : GatewayDb F) (cs : List (Env × GatewayCall F))
      → killed_of id db ≡ some true
      → All (λ c. keeps_off id c ≡ true) cs
      → (killed_of id (run regex sha256_hex db cs) ≡ some true)
        × (chats_of id (run regex sha256_hex db cs) ≡ chats_of id db)
  unfolding run
  run-killed id db [] h ks = (h, refl)
  run-killed id db (c ∷ cs) h (k, ks) =
      let (off, quiet) = step-Holds id db c k h in
      let (off', quiet') = run-killed id (step regex sha256_hex db c) cs off ks in
      (off', quiet' ∙ quiet)
