-- ===== src/Schema/Total.antt =====
-- `validate_schema` ends on every value, and which exceptions leave it.
use alpha_orchestration.Prelude.{
  ◌≡◌, ◌⊎◌, refl, ℕ, zero, suc, ◌≤◌, String, true, Option, none, some, arith, ◌==◌, Bool-cases, inl,
  inr, ltb, length,
}
use alpha_orchestration.Prelude.Dict.{Dict, lookup, values}
use alpha_orchestration.Result.{Error, Result, err, guard, value_error, type_error}
use alpha_orchestration.Json.{
  Json, null, bool, arr, obj, Items, nil, cons, Fields, end, field, elements, entries,
}
use alpha_orchestration.Reducer.Payload.{get_or}
use alpha_orchestration.Reducer.Errors.{
  OnlyRaises, OnlyRaises-ok, OnlyRaises-err, OnlyRaises-bind, OnlyRaises-guard, raise_rules,
}
use alpha_orchestration.Schema.{
  check_required, check_each, check_any_of, check_properties, check_additional, check_items,
  check_keywords, check_schema, validate_within, value_size, items_size, fields_size,
  validate_schema,
}
use alpha_orchestration.Schema.Keywords.{
  by_schema, by_schema-cases, check_required-raises, check_keywords-raises, check_bounds-raises,
}

lookup-size :
    (k : String) (fs : Fields) (v : Json)
    → lookup k (entries fs) ≡ some v
    → value_size v ≤ fields_size fs
unfolding lookup fields_size
lookup-size k end v h = absurd cc
lookup-size k (field j w fs) v h = elim (Bool-cases (j == k)) [
  | inl e ↦ let q : w ≡ v = ground arith in rw (← q) (omega arith)
  | inr e ↦ omega (arith, lookup-size k fs v (ground arith))
]

get_or-holds :
    (P : Json → Type 0) (s : Dict Json) (k : String) (d : Json)
    → P d
    → ((v : Json) → lookup k s ≡ some v → P v)
    → P (get_or s k d)
get_or-holds P s k d hd hv = go (lookup k s) hv
  where
    go : (o : Option Json) → ((v : Json) → o ≡ some v → P v) → P (elim o [ none ↦ d | some v ↦ v ])
    go none h = hd
    go (some v) h = h v refl

null-size : (n : ℕ) → value_size null ≤ suc n
unfolding value_size
null-size n = omega arith

end-size : (n : ℕ) → value_size (obj end) ≤ suc n
unfolding value_size
end-size n = omega arith

module _ (check : Json → Result (Unit {0})) (n : ℕ)
    (checks : (v : Json) → value_size v ≤ n → OnlyRaises by_schema (check v)) where
  check_items_of-raises :
      (xs : Items) → items_size xs ≤ n → OnlyRaises by_schema (check_each check (elements xs))
  unfolding items_size
  check_items_of-raises nil h = OnlyRaises-ok tt
  check_items_of-raises (cons x xs) h =
      OnlyRaises-bind (check x) _ (checks x (omega arith))
        (λ u. check_items_of-raises xs (omega arith))

  check_values_of-raises :
      (fs : Fields)
      → fields_size fs ≤ n
      → OnlyRaises by_schema (check_each check (values (entries fs)))
  unfolding fields_size
  check_values_of-raises end h = OnlyRaises-ok tt
  check_values_of-raises (field k v fs) h =
      OnlyRaises-bind (check v) _ (checks v (omega arith))
        (λ u. check_values_of-raises fs (omega arith))

  check_any_of-raises :
      (v : Json) → value_size v ≤ suc n → OnlyRaises by_schema (check_any_of check v)
  unfolding check_any_of value_size
  check_any_of-raises null h = OnlyRaises-ok tt
  check_any_of-raises (arr xs) h =
      OnlyRaises-bind (guard (ltb 0 (length (elements xs))) value_error) _
        (OnlyRaises-guard _ value_error refl) (λ u. check_items_of-raises xs (omega arith))
  check_any_of-raises _ h = OnlyRaises-err value_error refl

  check_properties-raises :
      (v : Json) → value_size v ≤ suc n → OnlyRaises by_schema (check_properties check v)
  unfolding check_properties value_size
  check_properties-raises (obj fs) h = search (raise_rules, check_values_of-raises fs (omega arith))
  check_properties-raises _ h = OnlyRaises-err value_error refl

  check_additional-true : OnlyRaises by_schema (check_additional check (bool true))
  unfolding check_additional
  check_additional-true = OnlyRaises-ok tt

  check_additional-raises :
      (v : Json) → value_size v ≤ n → OnlyRaises by_schema (check_additional check v)
  unfolding check_additional
  check_additional-raises (bool b) h = OnlyRaises-ok tt
  check_additional-raises (obj fs) h = checks (obj fs) h
  check_additional-raises _ h = OnlyRaises-err value_error refl

  check_items-raises :
      (o : Option Json)
      → ((v : Json) → o ≡ some v → value_size v ≤ n)
      → OnlyRaises by_schema (check_items check o)
  unfolding check_items
  check_items-raises none h = OnlyRaises-ok tt
  check_items-raises (some v) h = checks v (h v refl)

  check_schema-raises :
      (fs : Fields) → fields_size fs ≤ n → OnlyRaises by_schema (check_schema check (entries fs))
  unfolding check_schema
  check_schema-raises fs h =
      let s = entries fs in
      OnlyRaises-bind (check_keywords s) _ (check_keywords-raises s) (λ _.
        OnlyRaises-bind (check_any_of check (get_or s "anyOf" null)) _ any_of (λ _.
          OnlyRaises-bind (check_properties check (get_or s "properties" (obj end))) _ properties
            (λ m.
              OnlyRaises-bind (check_required (get_or s "required" (arr nil)) m) _
                (check_required-raises (get_or s "required" (arr nil)) m)
                (λ _.
                  OnlyRaises-bind
                    (check_additional check (get_or s "additionalProperties" (bool true))) _
                    additional
                    (λ _.
                      OnlyRaises-bind (check_items check (lookup "items" s)) _
                        (check_items-raises (lookup "items" s) (under "items"))
                        (λ _. check_bounds-raises s))))))
    where
      under : (k : String) (v : Json) → lookup k (entries fs) ≡ some v → value_size v ≤ n
      under k v e = omega (arith, lookup-size k fs v e)

      any_of : OnlyRaises by_schema (check_any_of check (get_or (entries fs) "anyOf" null))
      any_of =
          get_or-holds (λ v. OnlyRaises by_schema (check_any_of check v)) (entries fs) "anyOf" null
            (check_any_of-raises null (null-size n))
            (λ v e. check_any_of-raises v (omega (arith, under "anyOf" v e)))

      properties :
          OnlyRaises by_schema (check_properties check (get_or (entries fs) "properties" (obj end)))
      properties =
          get_or-holds (λ v. OnlyRaises by_schema (check_properties check v)) (entries fs)
            "properties" (obj end) (check_properties-raises (obj end) (end-size n))
            (λ v e. check_properties-raises v (omega (arith, under "properties" v e)))

      additional :
          OnlyRaises by_schema
            (check_additional check (get_or (entries fs) "additionalProperties" (bool true)))
      additional =
          get_or-holds (λ v. OnlyRaises by_schema (check_additional check v)) (entries fs)
            "additionalProperties" (bool true) check_additional-true
            (λ v e. check_additional-raises v (under "additionalProperties" v e))

no_size : (v : Json) → ¬ (value_size v ≤ 0)
unfolding value_size
no_size (arr xs) h = omega arith
no_size (obj fs) h = omega arith
no_size _ h = omega arith

-- Fuel for every value inside the schema is enough.
pub validate_within-raises :
    (fuel : ℕ) (v : Json) → value_size v ≤ fuel → OnlyRaises by_schema (validate_within fuel v)
unfolding validate_within value_size
validate_within-raises zero v h = absurd (no_size v h)
validate_within-raises (suc fuel) (obj fs) h =
    check_schema-raises (validate_within fuel) fuel (validate_within-raises fuel) fs (omega arith)
validate_within-raises (suc fuel) _ h = OnlyRaises-err value_error refl

-- `validate_schema` ends on every value within a recursion as deep as the value has parts, and the
-- exceptions that leave it are SchemaValidationError, a ValueError, and TypeError.
pub validate_schema-raises :
    (v : Json) (e : Error) → validate_schema v ≡ err e → (e ≡ value_error) ⊎ (e ≡ type_error)
unfolding validate_schema
validate_schema-raises v e h =
    by_schema-cases e ((validate_within-raises (value_size v) v (omega arith)).at e h)
