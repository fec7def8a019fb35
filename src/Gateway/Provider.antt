-- ===== src/Gateway/Provider.antt =====
-- crates/gateway/src/provider.rs and registry.rs: the providers' interface, and the models by their
-- names. Providers are a parameter.
use frontkeep.Base.{
  ℕ, String, ◌≡◌, Option, some, List, [], ◌∷◌, ◌==◌, eq_iff, arith, if◌then◌else◌, unwrap_or,
  Result, get_key, insert_key, or_insert, get_key-insert_key,
}
use frontkeep.Base.Float.{Float}
use frontkeep.Gateway.Guardrails.{ChatMessage}

module _ (F : Float) where
  pub record ChatRequest : Type 0 where
    pub model : String
    pub messages : List ChatMessage
    pub max_tokens : Option ℕ
    pub temperature : Option F.F32
    pub user : Option String

  pub record ModelInfo : Type 0 where
    pub model_ref : String
    pub provider : String
    pub route_model : String
    pub data_classes : List String
    pub cost_in : F.F64
    pub cost_out : F.F64

pub record ChatResponse : Type 0 where
  pub content : String
  pub prompt_tokens : ℕ
  pub completion_tokens : ℕ
  pub model : String

-- `dyn Provider`: the provider's answer to a request for a model, or its error's text.
abbrev pub Provider : Float → Type 0
Provider F = String → ChatRequest F → Result String ChatResponse

module _ {F : Float} where
  -- `ModelRegistry::insert`, and one turn of the loop of `from_models`
  unfoldable pub insert : ModelInfo F → List (String × ModelInfo F) → List (String × ModelInfo F)
  insert m by = or_insert (insert_key by m.model_ref m) m.route_model m

  abbrev inserted : List (ModelInfo F) → List (String × ModelInfo F) → List (String × ModelInfo F)
  inserted [] by = by
  inserted (m ∷ ms) by = inserted ms (insert m by)

  -- `ModelRegistry::from_models`
  unfoldable pub from_models : List (ModelInfo F) → List (String × ModelInfo F)
  from_models ms = inserted ms []

  unfoldable pub resolve : List (String × ModelInfo F) → String → Option (ModelInfo F)
  resolve by model = get_key by model

  -- After an insert, a model's reference resolves to it, and its route name does where nothing had
  -- that name; every other name resolves as before.
  pub resolve-insert :
      (m : ModelInfo F) (by : List (String × ModelInfo F)) (name : String)
      → resolve (insert m by) name ≡ (
          if name == m.model_ref
          then some m
          else if name == m.route_model
          then some (unwrap_or (resolve by name) m)
          else resolve by name)
  unfolding insert resolve
  resolve-insert m by name = ground (
    arith,
    get_key-insert_key by m.model_ref name m,
    get_key-insert_key by m.model_ref m.route_model m,
    get_key-insert_key (insert_key by m.model_ref m) m.route_model name m,
    eq_iff name m.model_ref,
    eq_iff name m.route_model,
    eq_iff m.route_model m.model_ref,
  )
