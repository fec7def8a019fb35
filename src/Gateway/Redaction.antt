-- ===== src/Gateway/Redaction.antt =====
-- crates/gateway/src/guardrails.rs: what the scan of a request lets through.
use mathlib.Core.List.{append-nil, append_assoc}
use frontkeep.Base.{
  String, ◌≡◌, refl, ap, ◌∙◌, inl, inr, Bool, true, false, not, ◌&&◌, ◌||◌, Option, none, List, [],
  ◌∷◌, ◌++◌, arith, eqb, if◌then◌else◌, Bool-cases, is_some,
}
use frontkeep.Gateway.Guardrails.{
  builtin, total, verdict, scan_rule, scan_rules, scan_input, Regex, ChatMessage, Action, block,
  redact, enforce, monitor, Verdict, InputOutcome, Rule,
}

abbrev is_block : Action → Bool
is_block block = true
is_block _ = false

abbrev is_redact : Action → Bool
is_redact redact = true
is_redact _ = false

abbrev no_redact : List Rule → Bool
no_redact [] = true
no_redact (r ∷ rules) = not (is_redact r.action) && no_redact rules

-- No rule that redacts comes after one that blocks.
abbrev pub is_ordered : List Rule → Bool
is_ordered [] = true
is_ordered (r ∷ rules) = (not (is_block r.action) || no_redact rules) && is_ordered rules

module _ (regex : Regex) where
  -- A monitored scan: the verdicts are those of the rules that match, in order.
  abbrev pub matching : List Rule → List ChatMessage → List Verdict
  matching [] ms = []
  matching (r ∷ rules) ms =
      let n = total regex r ms in
      let rest = matching rules ms in
      if eqb n 0
      then rest
      else record { rule_id = r.id; category = r.category; action = r.action; matches = n } ∷ rest

  scan_rules-monitor :
      (rules : List Rule) (ms : List ChatMessage) (vs : List Verdict) (blocked : Option String)
      → scan_rules regex monitor rules (ms, record { verdicts = vs; blocked = blocked })
        ≡ (ms, record { verdicts = vs ++ matching rules ms; blocked = blocked })
  scan_rules-monitor [] ms vs blocked = ground (arith, append-nil vs)
  scan_rules-monitor (r ∷ rules) ms vs blocked = ground (
    arith,
    scan_rules-monitor rules ms vs blocked,
    scan_rules-monitor rules ms (vs ++ verdict regex r (total regex r ms) ∷ []) blocked,
    append_assoc vs (verdict regex r (total regex r ms) ∷ []) (matching rules ms),
  )

  -- In monitor mode a scan leaves the messages as they are and blocks nothing. Its verdicts are
  -- those of the rules that match the messages, in the order of the rules.
  pub scan_input-monitor :
      (rules : List Rule) (ms : List ChatMessage)
      → scan_input regex rules monitor ms
        ≡ (ms, record { verdicts = matching rules ms; blocked = none })
  unfolding scan_input
  scan_input-monitor rules ms = scan_rules-monitor rules ms [] none

  -- A rule that does not block, or that matches none of the messages.
  abbrev pub is_quiet : List ChatMessage → Rule → Bool
  is_quiet ms r = not (is_block r.action) || eqb (total regex r ms) 0

  abbrev pub all_quiet : List ChatMessage → List Rule → Bool
  all_quiet ms [] = true
  all_quiet ms (r ∷ rules) = is_quiet ms r && all_quiet ms rules

  scan_rule-blocked :
      (r : Rule) (ms : List ChatMessage) (out : InputOutcome)
      → is_some (scan_rule regex enforce r (ms, out)).1.blocked
        ≡ (is_some out.blocked || not (is_quiet ms r))
  scan_rule-blocked r ms out = ground arith

  scan_rule-no_redact :
      (r : Rule) (ms : List ChatMessage) (out : InputOutcome)
      → is_redact r.action ≡ false
      → (scan_rule regex enforce r (ms, out)).0 ≡ ms
  scan_rule-no_redact r ms out h = ground arith

  -- Rules that do not redact leave the messages, and block when one of them is not quiet.
  scan_rules-no_redact :
      (rules : List Rule) (ms : List ChatMessage) (out : InputOutcome)
      → no_redact rules ≡ true
      → ((scan_rules regex enforce rules (ms, out)).0 ≡ ms)
        × (is_some (scan_rules regex enforce rules (ms, out)).1.blocked
            ≡ (is_some out.blocked || not (all_quiet ms rules)))
  scan_rules-no_redact [] ms out h = (refl, ground arith)
  scan_rules-no_redact (r ∷ rules) ms out h =
      let (ms', out') = scan_rule regex enforce r (ms, out) in
      let (same, blocks) = scan_rules-no_redact rules ms' out' (ground arith) in
      let still : ms' ≡ ms = scan_rule-no_redact r ms out (ground arith) in
      let one = scan_rule-blocked r ms out in
      (same ∙ still, ground (arith, blocks, one, ap (λ m. all_quiet m rules) still))

  scan_rules-is_ordered :
      (rules : List Rule) (ms : List ChatMessage) (out : InputOutcome)
      → is_ordered rules ≡ true
      → is_some (scan_rules regex enforce rules (ms, out)).1.blocked ≡ (
          is_some out.blocked || not (all_quiet (scan_rules regex enforce rules (ms, out)).0 rules))
  scan_rules-is_ordered [] ms out h = ground arith
  scan_rules-is_ordered (r ∷ rules) ms out h =
      let (ms', out') = scan_rule regex enforce r (ms, out) in
      let later = scan_rules-is_ordered rules ms' out' (ground arith) in
      let one = scan_rule-blocked r ms out in
      elim (Bool-cases (is_block r.action)) [
        | inl blocking ↦
            let still : ms' ≡ ms = scan_rule-no_redact r ms out (ground arith) in
            let (same, blocks) = scan_rules-no_redact rules ms' out' (ground arith) in
            ground (arith, later, one, ap (λ m. is_quiet m r) (same ∙ still))
        | inr passing ↦ ground (arith, later, one)
      ]

  -- In enforce mode, with rules of which none redacts after one that blocks: a scan blocks the
  -- request exactly when some blocking rule matches the messages that the scan leaves. So what is
  -- let through holds no match of a blocking rule.
  pub scan_input-enforce :
      (rules : List Rule) (ms : List ChatMessage)
      → is_ordered rules ≡ true
      → is_some (scan_input regex rules enforce ms).1.blocked
        ≡ not (all_quiet (scan_input regex rules enforce ms).0 rules)
  unfolding scan_input
  scan_input-enforce rules ms h = scan_rules-is_ordered rules ms _ h

-- The built-in rules are in such an order.
pub builtin_ordered : is_ordered builtin ≡ true
unfolding builtin
builtin_ordered = refl
