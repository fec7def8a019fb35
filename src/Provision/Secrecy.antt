-- ===== src/Provision/Secrecy.antt =====
-- crates/provision/src/lib.rs: the routing of the outputs that are secret.
use frontkeep.Base.{
  String, ◌≡◌, refl, sym, ap, subst, ◌∙◌, inl, inr, Bool, true, false, ◌||◌, Option, none, some,
  List, [], ◌∷◌, ◌++◌, ◌==◌, eq_iff, arith, Bool-cases, Option-cases, contains, Result-cases,
  Result, err, ok, concat,
}
use frontkeep.Base.Json.{
  get_field, get_value, set_field, get_field-set_field, Json, null, bool, number, str, array,
  object, Fields,
}
use frontkeep.Provision.Apply.{
  ref_json, text_set, secret_text, secret_name, route_keys, with_fields, route_outputs,
  route_secrets, SecretRef, SecretStore,
}
use frontkeep.Provision.Connectors.{Provisioned}
use frontkeep.Provision.Enqueue.{JsonText}
use frontkeep.Provision.Manifest.{ProvisionError}
use frontkeep.Provision.TextSets.{contains-text_set, IsDistinct, text_set-IsDistinct}
use frontkeep.Workflow.Transitions.{after}

pub clash_pair :
    {S E A : Type 0} {s s' : S} {e : E} {a : A} → ◌≡◌ {A = S × Result E A} (s, err e) (s', ok a) → ⊥
clash_pair h = cc

no_value : {A : Type 0} {P : Type 0} {v : A} → ◌≡◌ {A = Option A} (some v) none → P
no_value h = cc

-- A string is stored as it is, any other value as its JSON text.
abbrev pub stored_text : JsonText → Json → String
stored_text text (str s) = s
stored_text text (object fs) = text.to_string (object fs)
stored_text text (array items) = text.to_string (array items)
stored_text text (number n) = text.to_string (number n)
stored_text text (bool b) = text.to_string (bool b)
stored_text text null = text.to_string null

module _ {S : Type 0} (secrets : SecretStore S) (project : String) where
  -- A store that some calls of `put` for the project lead to.
  pub data Puts : S → S → Type 0 where
    done : {s : S} → Puts s s
    then_put :
        {s s1 s' : S} (name value : String) (answer : Result ProvisionError SecretRef)
        → secrets.put s project name value ≡ (s1, answer)
        → Puts s1 s'
        → Puts s s'

module _ {S : Type 0} (secrets : SecretStore S) (text : JsonText)
    (project resource_name key : String) where
  -- What an output has become while the store went from one state to another: it is as it was if its
  -- key is not routed, or if there is none; else its value was put into the store on the way, under the
  -- name of the resource and the key, and it is the reference that the store gave for it.
  pub IsRouted : S → S → Bool → Option Json → Option Json → Type 0
  IsRouted s s' false before after = after ≡ before
  IsRouted s s' true none after = after ≡ none
  IsRouted s s' true (some value) after =
      (s0 : S) × (s1 : S) × (r : SecretRef) × Puts secrets project s s0
      × (secrets.put s0 project (concat resource_name (concat "-" key)) (stored_text text value)
          ≡ (s1, ok r))
      × Puts secrets project s1 s'
      × (after ≡ some (ref_json r))

  nothing_IsRouted : (s s' : S) (routed : Bool) → IsRouted s s' routed none none
  unfolding IsRouted
  nothing_IsRouted s s' false = refl
  nothing_IsRouted s s' true = refl

  later_IsRouted :
      (s s1 s' : S) (name value : String) (answer : Result ProvisionError SecretRef) (routed : Bool)
      (before after : Option Json)
      → secrets.put s project name value ≡ (s1, answer)
      → IsRouted s1 s' routed before after
      → IsRouted s s' routed before after
  unfolding IsRouted
  later_IsRouted s s1 s' name value answer false before after put h = h
  later_IsRouted s s1 s' name value answer true none after put h = h
  later_IsRouted s s1 s' name value answer true (some v) after put
        (s2, s3, r, to, made, from, is_ref) =
      (s2, s3, r, then_put name value answer put to, made, from, is_ref)

  -- A key that is not there.
  skipped_IsRouted :
      (s s' : S) (here rest : Bool) (before after : Option Json)
      → (here ≡ true → before ≡ none)
      → IsRouted s s' rest before after
      → IsRouted s s' (here || rest) before after
  unfolding IsRouted
  skipped_IsRouted s s' false rest before after missing h = h
  skipped_IsRouted s s' true true none after missing h = h
  skipped_IsRouted s s' true false none after missing h = h
  skipped_IsRouted s s' true rest (some v) after missing h = no_value (missing refl)

module _ {S : Type 0} (secrets : SecretStore S) (text : JsonText)
    (project resource_name : String) where
  stored_text_lem : (v : Json) → secret_text text v ≡ stored_text text v
  stored_text_lem (str s) = refl
  stored_text_lem (object fs) = refl
  stored_text_lem (array items) = refl
  stored_text_lem (number n) = refl
  stored_text_lem (bool b) = refl
  stored_text_lem null = refl

  -- One key is routed, and then the others.
  stored_case :
      (k : String) (keys : List String) (fs out : Fields) (s s' : S) (key : String) (value : Json)
      → get_field fs k ≡ some value
      → contains keys k ≡ false
      → route_keys secrets text project resource_name (k ∷ keys) fs s ≡ (s', ok out)
      → ((fs1 : Fields) (s1 : S)
          → route_keys secrets text project resource_name keys fs1 s1 ≡ (s', ok out)
          → Puts secrets project s1 s'
            × IsRouted secrets text project resource_name key s1 s'
                (contains keys key)
                (get_field fs1 key)
                (get_field out key))
      → Puts secrets project s s'
        × IsRouted secrets text project resource_name key s s'
            (k == key || contains keys key)
            (get_field fs key)
            (get_field out key)
  unfolding route_keys IsRouted
  stored_case k keys fs out s s' key value there once h rest =
      let put = secrets.put s project (secret_name resource_name k) (secret_text text value) in
      elim (Result-cases put.1) [
        | inl (e, refused) ↦
            let failed : route_keys secrets text project resource_name (k ∷ keys) fs s
                ≡ (put.0, err e) =
              rw (there, route_keys, refused) refl in
            elim (clash_pair (sym failed ∙ h)) [ ]
        | inr (r, made) ↦
            let fs1 = set_field fs k (ref_json r) in
            let went : route_keys secrets text project resource_name keys fs1 put.0
                ≡ route_keys secrets text project resource_name (k ∷ keys) fs s =
              rw (there, route_keys, made) refl in
            let (onward, after) = rest fs1 put.0 (went ∙ h) in
            let mid = get_field-set_field fs k key (ref_json r) in
            let answered : put ≡ (put.0, ok r) = ap (λ a. (put.0, a)) made in
            (
              then_put (secret_name resource_name k) (secret_text text value) (ok r) answered
                  onward,
              elim (Bool-cases (k == key)) [
                | inl same ↦
                    let e : k ≡ key = ground (arith, same, eq_iff k key) in
                    let there' : get_field fs key ≡ some value = rw⁻¹ e there in
                    let once' : contains keys key ≡ false = rw⁻¹ e once in
                    let given : secrets.put s project (concat resource_name (concat "-" key))
                          (stored_text text value)
                        ≡ (put.0, ok r) =
                      rw⁻¹ (e, stored_text_lem value) answered in
                    let last : get_field out key ≡ get_field fs1 key =
                      subst
                        (λ b.
                          IsRouted secrets text project resource_name key put.0 s' b
                            (get_field fs1 key) (get_field out key))
                        once' after in
                    rw (same, there') (s, put.0, r, done, given, onward, last ∙ mid ∙ rw same refl)
                | inr differ ↦ rw differ (
                    subst
                      (λ o.
                        IsRouted secrets text project resource_name key s s' (contains keys key) o
                          (get_field out key))
                      (mid ∙ rw differ refl)
                      (later_IsRouted secrets text project resource_name key s put.0 s' _ _ (ok r)
                        (contains keys key) (get_field fs1 key) (get_field out key) answered after))
              ],
            )
      ]

  route_keys-IsRouted :
      (keys : List String) (fs out : Fields) (s s' : S) (key : String)
      → IsDistinct keys
      → route_keys secrets text project resource_name keys fs s ≡ (s', ok out)
      → Puts secrets project s s'
        × IsRouted secrets text project resource_name key s s'
            (contains keys key)
            (get_field fs key)
            (get_field out key)
  unfolding route_keys IsRouted IsDistinct
  route_keys-IsRouted [] fs out s s' key d h =
      let e : s ≡ s' = cc in
      let e' : out ≡ fs = cc in
      (subst (λ x. Puts secrets project s x) e done, ap (λ o. get_field o key) e')
  route_keys-IsRouted (k ∷ keys) fs out s s' key (once, d) h =
      elim (Option-cases (get_field fs k)) [
        | inl missing ↦
            let skipped : route_keys secrets text project resource_name keys fs s
                ≡ route_keys secrets text project resource_name (k ∷ keys) fs s =
              rw (missing, route_keys) refl in
            let (onward, rest) = route_keys-IsRouted keys fs out s s' key d (skipped ∙ h) in
            (
              onward,
              skipped_IsRouted secrets text project resource_name key s s' (k == key)
                  (contains keys key) _ _ (λ same. ground (arith, same, missing, eq_iff k key))
                  rest,
            )
        | inr (value, there) ↦
            stored_case k keys fs out s s' key value there once h
              (λ fs1 s1 g. route_keys-IsRouted keys fs1 out s1 s' key d g)
      ]

  with_fields_case :
      (p q : Provisioned) (s' : S) (x : S × Result ProvisionError Fields)
      → with_fields secrets text project resource_name p x ≡ (s', ok q)
      → (out : Fields) × (x ≡ (s', ok out)) × (q.outputs ≡ object out)
  with_fields_case p q s' (s1, err e) h = elim (clash_pair h) [ ]
  with_fields_case p q s' (s1, ok out) h = (out, cc, cc)

  -- What is no object has no output to route.
  unrouted :
      (routed : Bool) (p q : Provisioned) (o : Json) (s s' : S) (key : String)
      → p.outputs ≡ o
      → get_value o key ≡ none
      → ◌≡◌ {A = S × Result ProvisionError Provisioned} (s, ok p) (s', ok q)
      → Puts secrets project s s'
        × IsRouted secrets text project resource_name key s s' routed
            (get_value o key)
            (get_value q.outputs key)
  unrouted routed p q o s s' key e none_there h =
      let same : q.outputs ≡ o = cc in
      let unmoved : s ≡ s' = cc in
      (
        subst (λ x. Puts secrets project s x) unmoved done,
        rw (same, none_there) (nothing_IsRouted secrets text project resource_name key s s' routed),
      )

  route_outputs-IsRouted :
      (keys : List String) (p q : Provisioned) (o : Json) (s s' : S) (key : String)
      → IsDistinct keys
      → p.outputs ≡ o
      → route_outputs secrets text project resource_name keys p o s ≡ (s', ok q)
      → Puts secrets project s s'
        × IsRouted secrets text project resource_name key s s'
            (contains keys key)
            (get_value o key)
            (get_value q.outputs key)
  route_outputs-IsRouted keys p q (object fs) s s' key d e h =
      let (out, went, is_out) =
        with_fields_case p q s' (route_keys secrets text project resource_name keys fs s) h in
      rw is_out (route_keys-IsRouted keys fs out s s' key d went)
  route_outputs-IsRouted keys p q null s s' key d e h =
      unrouted (contains keys key) p q null s s' key e refl h
  route_outputs-IsRouted keys p q (bool b) s s' key d e h =
      unrouted (contains keys key) p q (bool b) s s' key e refl h
  route_outputs-IsRouted keys p q (number n) s s' key d e h =
      unrouted (contains keys key) p q (number n) s s' key e refl h
  route_outputs-IsRouted keys p q (str t) s s' key d e h =
      unrouted (contains keys key) p q (str t) s s' key e refl h
  route_outputs-IsRouted keys p q (array items) s s' key d e h =
      unrouted (contains keys key) p q (array items) s s' key e refl h

  -- When the outputs of what a connector made have been routed, the store has only been put to, for
  -- the project, and each output is routed if the manifest declares it secret or the connector marks
  -- it as sensitive, and is as the connector gave it if not.
  pub route_secrets-IsRouted :
      (declared : List String) (p q : Provisioned) (s s' : S) (key : String)
      → route_secrets secrets text project resource_name declared p s ≡ (s', ok q)
      → Puts secrets project s s'
        × IsRouted secrets text project resource_name key s s'
            (contains (declared ++ p.sensitive_keys) key)
            (get_value p.outputs key)
            (get_value q.outputs key)
  unfolding route_secrets
  route_secrets-IsRouted declared p q s s' key h =
      let keys = text_set (declared ++ p.sensitive_keys) in
      rw⁻¹ (contains-text_set (declared ++ p.sensitive_keys) key) (
        route_outputs-IsRouted keys p q p.outputs s s' key
          (text_set-IsDistinct (declared ++ p.sensitive_keys)) refl h)
