-- ===== src/Policy/Engine.antt =====
-- crates/policy/src/lib.rs: requests, decisions and obligations.
use frontkeep.Base.{String, Bool, true, false, Option, none, some, List, [], ◌∷◌}
use frontkeep.Base.Json.{Json}

pub data Effect : Type 0 where
  allow deny : Effect

pub data Obligation : Type 0 where
  requires : (approver : String) → Obligation

pub record PolicyRequest : Type 0 where
  pub principal : String
  pub action : String
  pub resource : String
  pub context : Json

pub record Decision : Type 0 where
  pub effect : Effect
  pub reasons : List String
  pub obligations : List Obligation

abbrev is_allow : Effect → Bool
is_allow allow = true
is_allow deny = false

-- `allowed`
abbrev pub allowed : Decision → Bool
allowed d = is_allow d.effect

-- `Decision::deny`
abbrev pub deny_with : String → Decision
deny_with reason = record { effect = deny; reasons = reason ∷ []; obligations = [] }

abbrev first_approver : List Obligation → Option String
first_approver [] = none
first_approver (requires approver ∷ os) = some approver

-- `requires_approval`
abbrev pub requires_approval : Decision → Option String
requires_approval d = first_approver d.obligations

-- `dyn PolicyEngine`
abbrev pub PolicyEngine : Type 0
PolicyEngine = PolicyRequest → Decision
