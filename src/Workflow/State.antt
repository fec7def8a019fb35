-- ===== src/Workflow/State.antt =====
-- crates/workflow/src/lib.rs: the states of a request and the transitions between them.
use frontkeep.Base.{String, ◌≡◌, refl, ◌↔◌, ◌⊎◌, Bool, true, false, ◌==◌, arith, if◌then◌else◌}

pub data State : Type 0 where
  requested reviewing flagged approved rejected fulfilled cancelled : State

-- `State::as_str`
unfoldable pub as_str : State → String
as_str requested = "requested"
as_str reviewing = "reviewing"
as_str flagged = "flagged"
as_str approved = "approved"
as_str rejected = "rejected"
as_str fulfilled = "fulfilled"
as_str cancelled = "cancelled"

-- `State::parse`
unfoldable pub parse : String → State
parse s =
    if s == "reviewing"
    then reviewing
    else if s == "flagged"
    then flagged
    else if s == "approved"
    then approved
    else if s == "rejected"
    then rejected
    else if s == "fulfilled"
    then fulfilled
    else if s == "cancelled"
    then cancelled
    else requested

unfoldable pub can_transition : State → State → Bool
can_transition requested approved = true
can_transition requested rejected = true
can_transition requested cancelled = true
can_transition requested flagged = true
can_transition requested reviewing = true
can_transition approved reviewing = true
can_transition reviewing approved = true
can_transition reviewing requested = true
can_transition reviewing flagged = true
can_transition reviewing cancelled = true
can_transition flagged requested = true
can_transition flagged approved = true
can_transition flagged cancelled = true
can_transition approved fulfilled = true
can_transition approved cancelled = true
can_transition _ _ = false

-- `==` on states
abbrev pub is_state : State → State → Bool
is_state requested requested = true
is_state reviewing reviewing = true
is_state flagged flagged = true
is_state approved approved = true
is_state rejected rejected = true
is_state fulfilled fulfilled = true
is_state cancelled cancelled = true
is_state _ _ = false

pub is_state_iff : (s t : State) → (is_state s t ≡ true) ↔ (s ≡ t)
is_state_iff s t = ground arith

pub parse-as_str : (s : State) → parse (as_str s) ≡ s
unfolding parse as_str
parse-as_str requested = refl
parse-as_str reviewing = refl
parse-as_str flagged = refl
parse-as_str approved = refl
parse-as_str rejected = refl
parse-as_str fulfilled = refl
parse-as_str cancelled = refl

-- No transition leaves these.
abbrev pub IsTerminal : State → Type 0
IsTerminal s = (s ≡ rejected) ⊎ (s ≡ fulfilled) ⊎ (s ≡ cancelled)

pub terminal_no_exit : (s t : State) → IsTerminal s → can_transition s t ≡ false
unfolding can_transition
terminal_no_exit s t h = ground arith

pub State-set : IsSet State
State-set = hlevel
