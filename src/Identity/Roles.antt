-- ===== src/Identity/Roles.antt =====
-- crates/identity/src/lib.rs: org-wide roles, their capabilities, and the mapping of OIDC sign-ins.
use Prim.Native.Char.{code}
use frontkeep.Base.{
  ℕ, ◌+◌, String, Bool, true, false, not, ◌&&◌, ◌||◌, Option, none, some, List, ◌==◌, leb, eqb,
  if◌then◌else◌, any, is_empty, contains, is_blank, trim_start,
}

pub data Role : Type 0 where
  admin finance member : Role

pub data Capability : Type 0 where
  manage_users view_all_cost approve_requests provision view_audit : Capability

abbrev lower : ℕ → ℕ
lower c = if leb 65 c && leb c 90 then c + 32 else c

-- `eq_ignore_ascii_case`
unfoldable pub eq_ignore_ascii_case : String → String → Bool
eq_ignore_ascii_case String.[] String.[] = true
eq_ignore_ascii_case String.[] (String.◌∷◌ d t) = false
eq_ignore_ascii_case (String.◌∷◌ c s) String.[] = false
eq_ignore_ascii_case (String.◌∷◌ c s) (String.◌∷◌ d t) =
    eqb (lower (code c)) (lower (code d)) && eq_ignore_ascii_case s t

-- The text starts with the word, in any case, and only white space follows.
abbrev word_then_blank : String → String → Bool
word_then_blank s String.[] = is_blank s
word_then_blank String.[] (String.◌∷◌ d t) = false
word_then_blank (String.◌∷◌ c s) (String.◌∷◌ d t) =
    eqb (lower (code c)) (lower (code d)) && word_then_blank s t

-- `s.trim().to_lowercase() == word` for a word of lower-case letters; white space is ASCII here.
abbrev pub reads_as : String → String → Bool
reads_as s word = word_then_blank (trim_start s) word

unfoldable pub role_parse : String → Role
role_parse s =
    if reads_as s "admin" then admin else if reads_as s "finance" then finance else member

unfoldable pub role_as_str : Role → String
role_as_str admin = "admin"
role_as_str finance = "finance"
role_as_str member = "member"

unfoldable pub can : Role → Capability → Bool
can admin _ = true
can finance view_all_cost = true
can finance view_audit = true
can member provision = true
can _ _ = false

abbrev pub is_role : Role → Role → Bool
is_role admin admin = true
is_role finance finance = true
is_role member member = true
is_role _ _ = false

unfoldable pub may_approve_request : Role → String → String → Bool
may_approve_request role caller_email project_manager =
    can role approve_requests
    || (not (caller_email == "") && eq_ignore_ascii_case caller_email project_manager)

pub record OidcRoleConfig : Type 0 where
  pub admin_groups : List String
  pub finance_groups : List String
  pub admin_emails : List String
  pub groups_claim : String

abbrev pub authoritative : OidcRoleConfig → Bool
authoritative cfg = not (is_empty cfg.admin_groups) || not (is_empty cfg.finance_groups)

abbrev pub is_admin_email : OidcRoleConfig → Option String → Bool
is_admin_email cfg none = false
is_admin_email cfg (some e) = any (λ a. eq_ignore_ascii_case a e) cfg.admin_emails

abbrev pub in_any : List String → List String → Bool
in_any groups names = any (λ g. contains names g) groups

unfoldable pub target_role : OidcRoleConfig → Option String → List String → Option Role
target_role cfg email groups =
    if authoritative cfg
    then some (
        if is_admin_email cfg email || in_any groups cfg.admin_groups
        then admin
        else if in_any groups cfg.finance_groups
        then finance
        else member)
    else if is_admin_email cfg email
    then some admin
    else none
