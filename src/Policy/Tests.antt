-- ===== src/Policy/Tests.antt =====
-- crates/policy: the engine at a concrete request. The Cedar of these tests takes every text as it
-- is and allows what a project asks for.
use frontkeep.Base.{String, ◌≡◌, refl, ◌↔◌, true, none, some, [], ◌∷◌, ◌==◌, if◌then◌else◌, ok}
use frontkeep.Base.Json.{Json, null}
use frontkeep.Policy.Cedar.{cedar_type, to_uid, action_uid, cedar_engine, Cedar}
use frontkeep.Policy.Engine.{allowed, requires_approval, PolicyRequest}
use frontkeep.Policy.FailClosed.{IsAsked, cedar_engine-allowed_iff, cedar_engine-requires_approval}

abbrev plain : Cedar
plain = record {
  EntityUid = String;
  Context = Json;
  CedarRequest = String × String;
  uid_from_str = λ s. ok s;
  from_json_value = λ v. ok v;
  new_request = λ principal action resource ctx. ok (principal, action);
  is_authorized =
      λ r. record { is_allow = r.0 == "Project::\"p1\""; reason = "base" ∷ "wide" ∷ [] };
  policy = λ pid. if pid == "wide" then some (some "group:default/platform") else some none;
  to_uppercase = λ ch. String.◌∷◌ ch String.[];
}

abbrev promotes : PolicyRequest
promotes = record {
  principal = "project:p1";
  action = "promote";
  resource = "project:p1";
  context = null;
}

abbrev asked : plain.CedarRequest
asked = ("Project::\"p1\"", "Action::\"promote\"")

cedar_engine-allowed_iff_example :
    (allowed (cedar_engine plain promotes) ≡ true)
    ↔ ((r : String × String) × IsAsked plain promotes r × ((plain.is_authorized r).is_allow ≡ true))
cedar_engine-allowed_iff_example = cedar_engine-allowed_iff plain promotes

cedar_engine-requires_approval_example :
    requires_approval (cedar_engine plain promotes) ≡ some "group:default/platform"
unfolding to_uid action_uid cedar_type
cedar_engine-requires_approval_example = cedar_engine-requires_approval plain promotes asked (
  "Project::\"p1\"", "Action::\"promote\"", "Project::\"p1\"", null, refl, refl, refl, refl, refl,
)
