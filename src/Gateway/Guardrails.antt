-- ===== src/Gateway/Guardrails.antt =====
-- crates/gateway/src/guardrails.rs: the rules that scan what goes to a model and what comes back.
-- Regular expressions are a parameter.
use frontkeep.Base.{
  ℕ, ◌+◌, String, Bool, true, false, ◌&&◌, Option, none, some, List, [], ◌∷◌, ◌++◌, map, ltb, eqb,
  if◌then◌else◌, concat,
}

-- `regex::Regex`: a pattern's matches in a text and their replacement.
pub record Regex : Type 0 where
  -- `find_iter(text).count()`
  pub count : (pattern text : String) → ℕ
  -- `replace_all(text, replacement)`
  pub replace_all : (pattern text replacement : String) → String

pub record ChatMessage : Type 0 where
  pub role : String
  pub content : String

pub data Action : Type 0 where
  block redact flag : Action

pub data Category : Type 0 where
  prompt_injection pii secret : Category

pub data Mode : Type 0 where
  enforce monitor : Mode

pub record Verdict : Type 0 where
  pub rule_id : String
  pub category : Category
  pub action : Action
  pub matches : ℕ

pub record InputOutcome : Type 0 where
  pub verdicts : List Verdict
  pub blocked : Option String

pub record Rule : Type 0 where
  pub id : String
  pub category : Category
  pub action : Action
  pub re : String

abbrev rule : String → Category → Action → String → Rule
rule id category action pattern = record {
  id = id;
  category = category;
  action = action;
  re = pattern;
}

-- `Guardrails::builtin`
unfoldable pub builtin : List Rule
builtin =
    rule "prompt-injection" prompt_injection flag
      "(?i)(ignore\\s+(all\\s+)?(previous|prior)\\s+instructions|disregard\\s+the\\s+above|you\\s+are\\s+now\\s+|\\bDAN\\s+mode\\b)"
    ∷ rule "pii-email" pii redact "[A-Za-z0-9._%+\\-]+@[A-Za-z0-9.\\-]+\\.[A-Za-z]{2,}"
    ∷ rule "pii-ssn" pii redact "\\b\\d{3}-\\d{2}-\\d{4}\\b"
    ∷ rule "pii-credit-card" pii redact "\\b\\d{4}[ \\-]?\\d{4}[ \\-]?\\d{4}[ \\-]?\\d{4}\\b"
    ∷ rule "secret-aws-access-key" secret block "\\bAKIA[0-9A-Z]{16}\\b"
    ∷ rule "secret-github-pat" secret block "\\bghp_[A-Za-z0-9]{36}\\b"
    ∷ rule "secret-private-key" secret block "-----BEGIN [A-Z ]*PRIVATE KEY-----"
    ∷ []

module _ (regex : Regex) where
  -- A rule's matches in all the messages.
  abbrev pub total : Rule → List ChatMessage → ℕ
  total r [] = 0
  total r (m ∷ ms) = regex.count r.re m.content + total r ms

  abbrev pub redacted : Rule → ChatMessage → ChatMessage
  redacted r m = record m {
    content = regex.replace_all r.re m.content (concat "[REDACTED:" (concat r.id "]"));
  }

  abbrev pub verdict : Rule → ℕ → Verdict
  verdict r n = record { rule_id = r.id; category = r.category; action = r.action; matches = n }

  abbrev pub blocked_by : Rule → String
  blocked_by r = concat "blocked by guardrail '" (concat r.id "'")

  -- What an enforced match does.
  abbrev pub enforced :
      Action → Rule → List ChatMessage → Option String → List ChatMessage × Option String
  enforced block r ms blocked = (ms, some (blocked_by r))
  enforced redact r ms blocked = (map (redacted r) ms, blocked)
  enforced flag r ms blocked = (ms, blocked)

  abbrev pub acted :
      Mode → Rule → List ChatMessage → Option String → List ChatMessage × Option String
  acted monitor r ms blocked = (ms, blocked)
  acted enforce r ms blocked = enforced r.action r ms blocked

  -- One turn of the loop over the rules.
  abbrev pub scan_rule :
      Mode → Rule → List ChatMessage × InputOutcome → List ChatMessage × InputOutcome
  scan_rule mode r (ms, out) =
      let n = total r ms in
      if eqb n 0 then (ms, out) else (
        (acted mode r ms out.blocked).0,
        record {
          verdicts = out.verdicts ++ verdict r n ∷ [];
          blocked = (acted mode r ms out.blocked).1;
        },
      )

  abbrev pub scan_rules :
      Mode → List Rule → List ChatMessage × InputOutcome → List ChatMessage × InputOutcome
  scan_rules mode [] s = s
  scan_rules mode (r ∷ rules) s = scan_rules mode rules (scan_rule mode r s)

  -- `scan_input`
  unfoldable pub scan_input : List Rule → Mode → List ChatMessage → List ChatMessage × InputOutcome
  scan_input rules mode ms = scan_rules mode rules (ms, record { verdicts = []; blocked = none })

  abbrev leaks : Category → Bool
  leaks secret = true
  leaks pii = true
  leaks prompt_injection = false

  -- `scan_output`
  unfoldable pub scan_output : List Rule → String → List Verdict
  scan_output [] text = []
  scan_output (r ∷ rules) text =
      let n = regex.count r.re text in
      let rest = scan_output rules text in
      if leaks r.category && ltb 0 n
      then record { rule_id = r.id; category = r.category; action = flag; matches = n } ∷ rest
      else rest
