-- ===== src/Schema/Sound.antt =====
-- `validate_json` against a schema that `validate_schema` accepted.
use alpha_orchestration.Prelude.{
  ◌≡◌, ◌⊎◌, refl, ℕ, zero, suc, String, true, Option, none, some, List, [], ◌∷◌, All, inl, inr,
  Option-cases, ◌||◌, not, all_unique, map, false, subst, length, ltb, all,
}
use alpha_orchestration.Prelude.Int.{ℤ, pos}
use alpha_orchestration.Prelude.Dict.{Dict, lookup, values, has_key}
use alpha_orchestration.Prelude.Text.{text_length}
use alpha_orchestration.Result.{Error, Result, ok, err, guard, >>=-eq-ok, value_error, type_error}
use alpha_orchestration.Json.{
  Json, null, bool, int, float, str, arr, obj, finite, infinite, nan, nil, end, elements, entries,
}
use alpha_orchestration.Reducer.Payload.{get_or}
use alpha_orchestration.Reducer.Errors.{
  OnlyRaises, OnlyRaises-ok, OnlyRaises-err, OnlyRaises-bind, OnlyRaises-bind_eq, OnlyRaises-guard,
}
use alpha_orchestration.Schema.{
  check_unique_items, check_size, check_limit, each, check_bounds, check_each, check_any_of,
  check_properties, check_additional, check_items, validate_within, value_size, validate_schema,
}
use alpha_orchestration.Schema.Keywords.{by_schema, by_schema-cases}
use alpha_orchestration.Schema.Validate.{
  test_type, test_enum, test_size, test_limit, test_number, name_list, property_table, wants_unique,
  first_match, test_any_of, test_extra, test_property, test_properties, test_object, test_each,
  test_items, test_array, test_value, test_json, accepts_within, validate_json,
}
use alpha_orchestration.Schema.Shapes.{
  test_type-raises, test_enum-raises, test_size-raises, test_limit-raises, name_list-raises,
  wants_unique-raises, each-parts, check_each-parts, All-lookup, IsAccepted, accepted,
}

-- What `check_bounds` found of each keyword.
record IsBounded (s : Dict Json) : Type 0 where
  unique : check_unique_items (lookup "uniqueItems" s) ≡ ok tt
  min_items : check_size (lookup "minItems" s) ≡ ok tt
  max_items : check_size (lookup "maxItems" s) ≡ ok tt
  min_length : check_size (lookup "minLength" s) ≡ ok tt
  max_length : check_size (lookup "maxLength" s) ≡ ok tt
  min_properties : check_size (lookup "minProperties" s) ≡ ok tt
  max_properties : check_size (lookup "maxProperties" s) ≡ ok tt
  minimum : check_limit (lookup "minimum" s) ≡ ok tt
  maximum : check_limit (lookup "maximum" s) ≡ ok tt
  above : check_limit (lookup "exclusiveMinimum" s) ≡ ok tt
  below : check_limit (lookup "exclusiveMaximum" s) ≡ ok tt

bounded : (s : Dict Json) → check_bounds s ≡ ok tt → IsBounded s
unfolding check_bounds
bounded s h =
    let (u0, e0, h0) = >>=-eq-ok (check_unique_items (lookup "uniqueItems" s)) _ h in
    let (u1, e1, h1) = >>=-eq-ok (each (λ k. check_size (lookup k s)) sizes) _ h0 in
    let (u2, e2, h2) = >>=-eq-ok (each (λ k. check_limit (lookup k s)) limits) _ h1 in
    let (a, (b, (c, (d, (e, (f, done)))))) = each-parts (λ k. check_size (lookup k s)) sizes e1 in
    let (l, (m, (o, (n, over)))) = each-parts (λ k. check_limit (lookup k s)) limits e2 in
    record {
      unique = e0;
      min_items = a;
      max_items = b;
      min_length = c;
      max_length = d;
      min_properties = e;
      max_properties = f;
      minimum = l;
      maximum = m;
      above = o;
      below = n;
    }
  where
    sizes : List String
    sizes =
        "minItems" ∷ "maxItems" ∷ "minLength" ∷ "maxLength" ∷ "minProperties" ∷ "maxProperties" ∷ []

    limits : List String
    limits = "minimum" ∷ "maximum" ∷ "exclusiveMinimum" ∷ "exclusiveMaximum" ∷ []

-- The handler in the loop over `anyOf`.
catch-raises :
    (r rest : Result (Unit {0}))
    → OnlyRaises by_schema r
    → OnlyRaises by_schema rest
    → OnlyRaises by_schema (elim r [ ok u ↦ ok tt | err value_error ↦ rest | err e ↦ err e ])
catch-raises (ok u) rest h k = OnlyRaises-ok tt
catch-raises (err e) rest h k = elim (by_schema-cases e (h.at e refl)) [
  | inl q ↦ rw q k
  | inr q ↦ rw q (OnlyRaises-err type_error refl)
]

module _ (repr : Json → String) (accept : Json → Result (Unit {0}))
    (check : Json → Json → Result (Unit {0}))
    (checks : (c v : Json) → accept c ≡ ok tt → OnlyRaises by_schema (check v c)) where
  first_match-raises :
      (v : Json) (cs : List Json)
      → All (λ c. accept c ≡ ok tt) cs
      → OnlyRaises by_schema (first_match repr check v cs)
  unfolding first_match
  first_match-raises v [] h = OnlyRaises-err value_error refl
  first_match-raises v (c ∷ cs) (h, hs) =
      catch-raises (check v c) (first_match repr check v cs) (checks c v h)
        (first_match-raises v cs hs)

  test_any_of-raises :
      (v : Json) (o : Option Json)
      → check_any_of accept (elim o [ none ↦ null | some w ↦ w ]) ≡ ok tt
      → OnlyRaises by_schema (test_any_of repr check v o)
  unfolding check_any_of test_any_of
  test_any_of-raises v none h = OnlyRaises-ok tt
  test_any_of-raises v (some (arr xs)) h =
      let (u, e, rest) = >>=-eq-ok (guard (ltb 0 (length (elements xs))) value_error) _ h in
      first_match-raises v (elements xs) (check_each-parts accept (elements xs) rest)
  test_any_of-raises v (some null) h = OnlyRaises-err type_error refl
  test_any_of-raises v (some (bool b)) h = absurd cc
  test_any_of-raises v (some (int b)) h = absurd cc
  test_any_of-raises v (some (float b)) h = absurd cc
  test_any_of-raises v (some (str b)) h = absurd cc
  test_any_of-raises v (some (obj b)) h = absurd cc

  test_extra-raises :
      (a v : Json)
      → check_additional accept a ≡ ok tt
      → OnlyRaises by_schema (test_extra repr check a v)
  unfolding check_additional
  test_extra-raises (bool false) v h = OnlyRaises-err value_error refl
  test_extra-raises (bool true) v h = OnlyRaises-ok tt
  test_extra-raises (obj fs) v h = checks (obj fs) v h
  test_extra-raises null v h = absurd cc
  test_extra-raises (int b) v h = absurd cc
  test_extra-raises (float b) v h = absurd cc
  test_extra-raises (str b) v h = absurd cc
  test_extra-raises (arr b) v h = absurd cc

  test_property-raises :
      (properties : Dict Json) (a : Json) (k : String) (v : Json)
      → All (λ c. accept c ≡ ok tt) (values properties)
      → check_additional accept a ≡ ok tt
      → OnlyRaises by_schema (test_property repr check properties a k v)
  unfolding test_property
  test_property-raises properties a k v h g = elim (Option-cases (lookup k properties)) [
    | inl missing ↦ rw (missing, test_property) (test_extra-raises a v g)
    | inr (c, found) ↦ rw (found, test_property) (checks c v (All-lookup _ k properties c h found))
  ]

  test_properties-raises :
      (properties : Dict Json) (a : Json) (m : Dict Json)
      → All (λ c. accept c ≡ ok tt) (values properties)
      → check_additional accept a ≡ ok tt
      → OnlyRaises by_schema (test_properties repr check properties a m)
  unfolding test_properties
  test_properties-raises properties a [] h g = OnlyRaises-ok tt
  test_properties-raises properties a ((k, v) ∷ m) h g =
      OnlyRaises-bind (test_property repr check properties a k v) _
        (test_property-raises properties a k v h g) (λ _. test_properties-raises properties a m h g)

  property_table-raises :
      (v : Json) (m : Dict Json)
      → check_properties accept v ≡ ok m
      → OnlyRaises by_schema (property_table v)
  unfolding check_properties
  property_table-raises (obj fs) m h = OnlyRaises-ok (entries fs)
  property_table-raises _ m h = absurd cc

  property_table-accepted :
      (v : Json) (m n : Dict Json)
      → check_properties accept v ≡ ok m
      → property_table v ≡ ok n
      → All (λ c. accept c ≡ ok tt) (values n)
  unfolding check_properties
  property_table-accepted (obj fs) m n h q =
      let (u, e, rest) = >>=-eq-ok (check_each accept (values (entries fs))) _ h in
      subst (λ t. All (λ c. accept c ≡ ok tt) (values t)) (ok-injective (entries fs) n q)
        (check_each-parts accept (values (entries fs)) e)
    where
      ok-injective : (a b : Dict Json) → ok a ≡ ok b → a ≡ b
      ok-injective a b p = cc
  property_table-accepted _ m n h q = absurd cc

  test_each-raises :
      (c : Json) (vs : List Json)
      → accept c ≡ ok tt
      → OnlyRaises by_schema (test_each repr check c vs)
  unfolding test_each
  test_each-raises c [] h = OnlyRaises-ok tt
  test_each-raises c (v ∷ vs) h =
      OnlyRaises-bind (check v c) _ (checks c v h) (λ _. test_each-raises c vs h)

  test_items-raises :
      (o : Option Json) (vs : List Json)
      → check_items accept o ≡ ok tt
      → OnlyRaises by_schema (test_items repr check o vs)
  unfolding check_items test_items
  test_items-raises none vs h = OnlyRaises-ok tt
  test_items-raises (some c) vs h = test_each-raises c vs h

  module _ (s : Dict Json) (a : IsAccepted accept s) where
    test_object-raises : (m : Dict Json) → OnlyRaises by_schema (test_object repr check s m)
    unfolding test_object
    test_object-raises m =
        let b = bounded s a.bounds in
        OnlyRaises-bind (name_list (get_or s "required" (arr nil))) _
          (name_list-raises _ a.table a.required)
          (λ required.
            OnlyRaises-bind (guard (all (λ k. has_key k m) required) value_error) _
              (OnlyRaises-guard _ value_error refl)
              (λ _.
                OnlyRaises-bind (test_size s "minProperties" "maxProperties" (length m)) _
                  (test_size-raises s _ _ (length m) b.min_properties b.max_properties)
                  (λ _.
                    OnlyRaises-bind_eq (property_table (get_or s "properties" (obj end))) _
                      (property_table-raises _ a.table a.properties)
                      (λ n e.
                        test_properties-raises n _ m
                          (property_table-accepted _ a.table n a.properties e) a.additional))))

    test_array-raises : (vs : List Json) → OnlyRaises by_schema (test_array repr check s vs)
    unfolding test_array
    test_array-raises vs =
        let b = bounded s a.bounds in
        OnlyRaises-bind (test_size s "minItems" "maxItems" (length vs)) _
          (test_size-raises s _ _ (length vs) b.min_items b.max_items)
          (λ _.
            OnlyRaises-bind (wants_unique (lookup "uniqueItems" s)) _
              (wants_unique-raises _ b.unique)
              (λ unique.
                OnlyRaises-bind (guard (not unique || all_unique (map repr vs)) value_error) _
                  (OnlyRaises-guard _ value_error refl)
                  (λ _. test_items-raises (lookup "items" s) vs a.items)))

    test_number-raises : (n : ℤ × ℤ) → OnlyRaises by_schema (test_number s n)
    unfolding test_number
    test_number-raises n =
        let b = bounded s a.bounds in
        OnlyRaises-bind (test_limit _ (lookup "minimum" s)) _ (test_limit-raises _ _ b.minimum)
          (λ _.
            OnlyRaises-bind (test_limit _ (lookup "maximum" s)) _ (test_limit-raises _ _ b.maximum)
              (λ _.
                OnlyRaises-bind (test_limit _ (lookup "exclusiveMinimum" s)) _
                  (test_limit-raises _ _ b.above)
                  (λ _. test_limit-raises _ (lookup "exclusiveMaximum" s) b.below)))

    test_value-raises : (v : Json) → OnlyRaises by_schema (test_value repr check s v)
    unfolding test_value
    test_value-raises (obj fs) = test_object-raises (entries fs)
    test_value-raises (arr xs) = test_array-raises (elements xs)
    test_value-raises (str t) =
        let b = bounded s a.bounds in
        test_size-raises s _ _ (text_length t) b.min_length b.max_length
    test_value-raises (int n) = test_number-raises (n, pos 0)
    test_value-raises (float (finite m e)) = test_number-raises (m, e)
    test_value-raises (float (infinite b)) = OnlyRaises-err value_error refl
    test_value-raises (float nan) = OnlyRaises-err value_error refl
    test_value-raises null = OnlyRaises-ok tt
    test_value-raises (bool b) = OnlyRaises-ok tt

    test_json-raises : (v : Json) → OnlyRaises by_schema (test_json repr check s v)
    unfolding test_json
    test_json-raises v =
        OnlyRaises-bind (test_any_of repr check v (lookup "anyOf" s)) _
          (test_any_of-raises v (lookup "anyOf" s) a.any_of)
          (λ _.
            OnlyRaises-bind (test_enum v (lookup "enum" s)) _
              (test_enum-raises v (lookup "enum" s) a.listed)
              (λ _.
                OnlyRaises-bind (test_type v (get_or s "type" null)) _
                  (test_type-raises v (get_or s "type" null) a.typed) (λ _. test_value-raises v)))

accepts_within-raises :
    (repr : Json → String) (fuel : ℕ) (schema value : Json)
    → validate_within fuel schema ≡ ok tt
    → OnlyRaises by_schema (accepts_within repr fuel value schema)
unfolding validate_within accepts_within
accepts_within-raises repr zero schema value h = absurd cc
accepts_within-raises repr (suc fuel) (obj fs) value h =
    test_json-raises repr (validate_within fuel) (accepts_within repr fuel)
      (accepts_within-raises repr fuel) (entries fs)
      (accepted (validate_within fuel) (entries fs) h) value
accepts_within-raises repr (suc fuel) _ value h = absurd cc

-- Against a schema that `validate_schema` accepts, `validate_json` ends on every value, and the
-- exceptions that leave it are SchemaValidationError, a ValueError, and TypeError; so no keyword
-- ever has a shape that the model leaves out.
pub validate_json-raises :
    (repr : Json → String) (schema value : Json) (e : Error)
    → validate_schema schema ≡ ok tt
    → validate_json repr value schema ≡ err e
    → (e ≡ value_error) ⊎ (e ≡ type_error)
unfolding validate_schema validate_json
validate_json-raises repr schema value e accepts h =
    by_schema-cases e ((accepts_within-raises repr (value_size schema) schema value accepts).at e h)
