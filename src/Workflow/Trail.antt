-- ===== src/Workflow/Trail.antt =====
-- crates/workflow/src/lib.rs: the audit log read back as the history of one request.
pub mod Run
use frontkeep.Base.{
  String, ◌≡◌, refl, ◌⊎◌, inl, inr, Bool, true, false, Option, none, some, List, [], ◌∷◌, ◌++◌, map,
  ◌==◌, eq_iff, arith, if◌then◌else◌, Bool-cases, Option-cases, err, ok,
}
use frontkeep.Base.Json.{get_str, Json}
use frontkeep.Policy.Engine.{PolicyEngine}
use frontkeep.Storage.Audit.{AuditRecord}
use frontkeep.Storage.Env.{Env}
use frontkeep.Workflow.Engine.{audit, initial, submit, get, NewRequest, WorkflowDb}
use frontkeep.Workflow.Lookup.{state_of, get-submit, get-update_payload}
use frontkeep.Workflow.Outcomes.{transition-IsMove, IsMove}
use frontkeep.Workflow.State.{
  as_str, can_transition, State, requested, approved, rejected, fulfilled,
}
use frontkeep.Workflow.Transitions.{transition, Outcome, after, already, fulfill, update_payload}

abbrev about : String → AuditRecord → Bool
about id rec = elim (get_str rec.data_json "request_id") [ none ↦ false | some i ↦ i == id ]

-- The recorded outcomes of one request, newest first.
abbrev pub history_onto : String → List AuditRecord → List String → List String
history_onto id [] acc = acc
history_onto id (rec ∷ log) acc =
    history_onto id log (if about id rec then rec.outcome ∷ acc else acc)

abbrev pub history : String → List AuditRecord → List String
history id log = history_onto id log []

history-append :
    (id : String) (log : List AuditRecord) (rec : AuditRecord) (acc : List String)
    → history_onto id (log ++ rec ∷ []) acc
      ≡ (if about id rec then rec.outcome ∷ history_onto id log acc else history_onto id log acc)
history-append id [] rec acc = ground arith
history-append id (r ∷ log) rec acc = history-append id log rec _

-- The first state of a request.
abbrev IsInitial : State → Type 0
IsInitial s = (s ≡ requested) ⊎ (s ≡ approved) ⊎ (s ≡ rejected)

-- A path of legal transitions, newest state first.
abbrev pub IsPath : List State → Type 0
IsPath [] = Unit
IsPath (s ∷ []) = IsInitial s
IsPath (t ∷ s ∷ path) = (can_transition s t ≡ true) × IsPath (s ∷ path)

abbrev pub head? : List State → Option State
head? [] = none
head? (s ∷ path) = some s

-- The log holds a legal path that ends in the stored state.
pub record IsTrailed (id : String) (db : WorkflowDb) : Type 0 where
  pub path : List State
  pub recorded : history id db.audit_log ≡ map as_str path
  pub legal : IsPath path
  pub current : state_of id db ≡ head? path

IsPath-step :
    (path : List State) (s t : State)
    → head? path ≡ some s
    → can_transition s t ≡ true
    → IsPath path
    → IsPath (t ∷ path)
IsPath-step [] s t e legal p = cc
IsPath-step (r ∷ path) s t e legal p = (ground arith, p)

submit-entry :
    (policy : PolicyEngine) (env : Env) (new : NewRequest) (db : WorkflowDb)
    → (rec : AuditRecord) × ((submit policy env new db).0.audit_log ≡ db.audit_log ++ rec ∷ [])
      × (get_str rec.data_json "request_id" ≡ some env.uid)
      × (rec.outcome ≡ as_str (submit policy env new db).1.state)
unfolding submit audit
submit-entry policy env new db = (_, refl, refl, refl)

submit-IsInitial :
    (policy : PolicyEngine) (env : Env) (new : NewRequest) (db : WorkflowDb)
    → IsInitial (submit policy env new db).1.state
unfolding submit initial
submit-IsInitial policy env new db = ground arith

-- One more record about request `id`, as seen from request `other`.
history-logged :
    (id other outcome : String) (log log' : List AuditRecord) (rec : AuditRecord)
    → log' ≡ log ++ rec ∷ []
    → get_str rec.data_json "request_id" ≡ some id
    → rec.outcome ≡ outcome
    → history other log' ≡ (if other == id then outcome ∷ history other log else history other log)
history-logged id other outcome log log' rec e named same =
    ground (arith, history-append other log rec [], eq_iff other id, eq_iff id other)

pub transition-IsTrailed :
    (other : String) (env : Env) (id : String) (to : State) (a r : Option String) (actor : String)
    (db : WorkflowDb)
    → IsTrailed other db
    → IsTrailed other (after db (transition env id to a r actor db))
transition-IsTrailed other env id to a r actor db v = go (transition env id to a r actor db) refl
  where
    go : (out : Outcome) → transition env id to a r actor db ≡ out → IsTrailed other (after db out)
    go (err e) h = v
    go (ok (db', req')) h =
        let m = transition-IsMove env id to a r actor db h in
        let grown =
          history-logged id other (as_str to) db.audit_log db'.audit_log m.entry m.logged
            m.entry_request m.entry_outcome in
        elim (Bool-cases (other == id)) [
          | inl hit ↦ record {
            path = to ∷ v.path;
            recorded = ground (arith, grown, v.recorded);
            legal =
                IsPath-step v.path m.before.state to
                  (ground (arith, v.current, m.found, eq_iff other id)) m.legal v.legal;
            current = ground (arith, m.reads other, m.result);
          }
          | inr miss ↦ record {
            path = v.path;
            recorded = ground (arith, grown, v.recorded);
            legal = v.legal;
            current = ground (arith, m.reads other, v.current);
          }
        ]

pub fulfill-IsTrailed :
    (other : String) (env : Env) (id actor : String) (db : WorkflowDb)
    → IsTrailed other db
    → IsTrailed other (after db (fulfill env id actor db))
unfolding fulfill
fulfill-IsTrailed other env id actor db v = elim (Option-cases (already fulfilled (get id db))) [
  | inl not_yet ↦
      rw (not_yet, fulfill) (transition-IsTrailed other env id fulfilled none none actor db v)
  | inr (req, done) ↦ rw (done, fulfill) v
]

head?-eq-none : (path : List State) → head? path ≡ none → path ≡ []
head?-eq-none [] e = refl
head?-eq-none (s ∷ path) e = cc

pub submit-IsTrailed :
    (other : String) (policy : PolicyEngine) (env : Env) (new : NewRequest) (db : WorkflowDb)
    → get env.uid db ≡ none
    → IsTrailed other db
    → IsTrailed other (submit policy env new db).0
submit-IsTrailed other policy env new db fresh v =
    let (entry, logged, named, outcome) = submit-entry policy env new db in
    let s = (submit policy env new db).1.state in
    let grown =
      history-logged env.uid other (as_str s) db.audit_log (submit policy env new db).0.audit_log
        entry logged named outcome in
    let found = get-submit policy env new other db fresh in
    elim (Bool-cases (other == env.uid)) [
      | inl hit ↦
          let nothing : v.path ≡ [] =
            head?-eq-none v.path (ground (arith, v.current, fresh, eq_iff other env.uid)) in
          record {
            path = s ∷ [];
            recorded = ground (arith, grown, v.recorded, nothing);
            legal = submit-IsInitial policy env new db;
            current = ground (arith, found);
          }
      | inr miss ↦ record {
        path = v.path;
        recorded = ground (arith, grown, v.recorded);
        legal = v.legal;
        current = ground (arith, found, v.current);
      }
    ]

pub update_payload-IsTrailed :
    (other : String) (env : Env) (id : String) (payload : Json) (db : WorkflowDb)
    → IsTrailed other db
    → IsTrailed other (update_payload env id payload db)
update_payload-IsTrailed other env id payload db v = record {
  path = v.path;
  recorded = unfold update_payload in v.recorded;
  legal = v.legal;
  current = ground (arith, get-update_payload env id other payload db, eq_iff other id, v.current);
}
