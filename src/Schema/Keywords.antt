-- ===== src/Schema/Keywords.antt =====
-- Which exceptions leave the keywords of a schema that hold no schema themselves.
use alpha_orchestration.Prelude.{
  ◌≡◌, ◌⊎◌, inl, inr, refl, String, Bool, true, false, Option, none, some, List, [], ◌∷◌, arith,
  all, contains,
}
use alpha_orchestration.Prelude.Dict.{Dict, keys}
use alpha_orchestration.Result.{
  Error, Result, guard, map_result, value_error, type_error, state_invariant, key_error,
  overflow_error, runtime_error, no_fuel, off_model,
}
use alpha_orchestration.Json.{Json, null, str, arr, elements}
use alpha_orchestration.Reducer.Payload.{get_or}
use alpha_orchestration.Reducer.Errors.{
  OnlyRaises, OnlyRaises-ok, OnlyRaises-err, OnlyRaises-bind, OnlyRaises-guard, raise_rules,
}
use alpha_orchestration.Schema.{
  schema_keys, json_type, check_types, check_type, check_description, check_enum,
  check_unique_items, required_name, check_required, check_size, check_limit, limit_number,
  check_pair, each, check_bounds, check_keywords,
}

-- SchemaValidationError is a ValueError; a TypeError is the other class.
abbrev pub by_schema : Error → Bool
by_schema value_error = true
by_schema type_error = true
by_schema _ = false

pub by_schema-cases : (e : Error) → by_schema e ≡ true → (e ≡ value_error) ⊎ (e ≡ type_error)
by_schema-cases value_error q = inl refl
by_schema-cases type_error q = inr refl
by_schema-cases state_invariant q = absurd cc
by_schema-cases key_error q = absurd cc
by_schema-cases overflow_error q = absurd cc
by_schema-cases runtime_error q = absurd cc
by_schema-cases no_fuel q = absurd cc
by_schema-cases off_model q = absurd cc

map-raises {ℓ κ} :
    {A : Type ℓ} {B : Type κ} (f : A → Result B) (xs : List A)
    → ((a : A) → OnlyRaises by_schema (f a))
    → OnlyRaises by_schema (map_result f xs)
map-raises f [] h = OnlyRaises-ok []
map-raises f (x ∷ xs) h = search (raise_rules, h x, map-raises f xs h)

json_type-raises : (v : Json) → OnlyRaises by_schema (json_type v)
json_type-raises v = record { at = λ e h. ground arith }

check_types-raises : (vs : List Json) → OnlyRaises by_schema (check_types vs)
check_types-raises vs = search (raise_rules, map-raises, json_type-raises)

check_type-raises : (v : Json) → OnlyRaises by_schema (check_type v)
unfolding check_type
check_type-raises null = OnlyRaises-ok tt
check_type-raises (str s) = check_types-raises (str s ∷ [])
check_type-raises (arr xs) = check_types-raises (elements xs)
check_type-raises _ = OnlyRaises-err value_error refl

check_description-raises : (o : Option Json) → OnlyRaises by_schema (check_description o)
check_description-raises o = record { at = λ e h. ground arith }

check_enum-raises : (o : Option Json) → OnlyRaises by_schema (check_enum o)
check_enum-raises none = OnlyRaises-ok tt
check_enum-raises (some (arr xs)) = search raise_rules
check_enum-raises (some _) = OnlyRaises-err value_error refl

check_unique_items-raises : (o : Option Json) → OnlyRaises by_schema (check_unique_items o)
check_unique_items-raises o = record { at = λ e h. ground arith }

required_name-raises : (v : Json) → OnlyRaises by_schema (required_name v)
required_name-raises v = record { at = λ e h. ground arith }

pub check_required-raises : (v : Json) (m : Dict Json) → OnlyRaises by_schema (check_required v m)
unfolding check_required
check_required-raises (arr xs) m = search (raise_rules, map-raises, required_name-raises)
check_required-raises _ m = OnlyRaises-err value_error refl

check_size-raises : (o : Option Json) → OnlyRaises by_schema (check_size o)
check_size-raises o = record { at = λ e h. ground arith }

check_limit-raises : (o : Option Json) → OnlyRaises by_schema (check_limit o)
check_limit-raises o = record { at = λ e h. ground arith }

limit_number-raises : (v : Json) → OnlyRaises by_schema (limit_number v)
limit_number-raises v = record { at = λ e h. ground arith }

check_pair-raises : (a b : Option Json) → OnlyRaises by_schema (check_pair a b)
check_pair-raises none b = OnlyRaises-ok tt
check_pair-raises (some a) none = OnlyRaises-ok tt
check_pair-raises (some a) (some b) = search (raise_rules, limit_number-raises)

pub check_keywords-raises : (s : Dict Json) → OnlyRaises by_schema (check_keywords s)
unfolding check_keywords
check_keywords-raises s =
    OnlyRaises-bind (guard (all (contains schema_keys) (keys s)) value_error) _
      (OnlyRaises-guard _ value_error refl)
      (λ _.
        OnlyRaises-bind (check_type (get_or s "type" null)) _
          (check_type-raises (get_or s "type" null))
          (λ _. search (raise_rules, check_description-raises, check_enum-raises)))

each-raises :
    (check : String → Result (Unit {0})) (ks : List String)
    → ((k : String) → OnlyRaises by_schema (check k))
    → OnlyRaises by_schema (each check ks)
each-raises check [] h = OnlyRaises-ok tt
each-raises check (k ∷ ks) h = search (raise_rules, h k, each-raises check ks h)

pub check_bounds-raises : (s : Dict Json) → OnlyRaises by_schema (check_bounds s)
unfolding check_bounds
check_bounds-raises s =
    search
      (
        raise_rules, each-raises, check_unique_items-raises, check_size-raises, check_limit-raises,
        check_pair-raises,
      )
      depth 40
