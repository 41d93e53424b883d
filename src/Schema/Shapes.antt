-- ===== src/Schema/Shapes.antt =====
-- What `validate_schema` checked of each keyword keeps `validate_json` to its own exceptions there.
use alpha_orchestration.Prelude.{
  ◌≡◌, refl, ℕ, String, Bool, true, Option, none, some, List, [], ◌∷◌, arith, All, inl, inr, ◌==◌,
  Bool-cases, contains, all,
}
use alpha_orchestration.Prelude.Int.{ℤ, pos, negsuc}
use alpha_orchestration.Prelude.Dict.{Dict, lookup, keys, values}
use alpha_orchestration.Result.{Result, ok, guard, map_result, >>=-eq-ok, value_error, type_error}
use alpha_orchestration.Json.{
  Json, null, bool, int, float, str, arr, obj, finite, infinite, nan, nil, end, elements,
}
use alpha_orchestration.Reducer.Payload.{get_or}
use alpha_orchestration.Reducer.Errors.{
  OnlyRaises, OnlyRaises-ok, OnlyRaises-err, OnlyRaises-bind, OnlyRaises-guard, raise_rules,
}
use alpha_orchestration.Schema.{
  schema_keys, json_type, check_type, check_description, check_enum, check_unique_items,
  required_name, check_required, check_size, check_limit, each, check_bounds, check_keywords,
  check_each, check_any_of, check_properties, check_additional, check_items, check_schema,
}
use alpha_orchestration.Schema.Keywords.{by_schema}
use alpha_orchestration.Schema.Validate.{
  type_name, test_type, test_enum, size_limit, test_size, test_limit, name_list, wants_unique,
}

-- A mapped reader gives text for text, so another reader of the same list does too.
types-raises :
    (vs : List Json) (ts : List String)
    → map_result json_type vs ≡ ok ts
    → OnlyRaises by_schema (map_result type_name vs)
types-raises [] ts h = OnlyRaises-ok []
types-raises (v ∷ vs) ts h =
    let (t, e, h1) = >>=-eq-ok (json_type v) _ h in
    let (us, e1, h2) = >>=-eq-ok (map_result json_type vs) _ h1 in
    OnlyRaises-bind (type_name v) _ (one v t e) (λ s.
      OnlyRaises-bind (map_result type_name vs) _ (types-raises vs us e1)
        (λ ss. OnlyRaises-ok (s ∷ ss)))
  where
    one : (w : Json) (u : String) → json_type w ≡ ok u → OnlyRaises by_schema (type_name w)
    one (str x) u q = OnlyRaises-ok x
    one null u q = absurd cc
    one (bool x) u q = absurd cc
    one (int x) u q = absurd cc
    one (float x) u q = absurd cc
    one (arr x) u q = absurd cc
    one (obj x) u q = absurd cc

names-raises :
    (vs : List Json) (ts : List String)
    → map_result required_name vs ≡ ok ts
    → OnlyRaises by_schema (map_result type_name vs)
names-raises [] ts h = OnlyRaises-ok []
names-raises (v ∷ vs) ts h =
    let (t, e, h1) = >>=-eq-ok (required_name v) _ h in
    let (us, e1, h2) = >>=-eq-ok (map_result required_name vs) _ h1 in
    OnlyRaises-bind (type_name v) _ (one v t e) (λ s.
      OnlyRaises-bind (map_result type_name vs) _ (names-raises vs us e1)
        (λ ss. OnlyRaises-ok (s ∷ ss)))
  where
    one : (w : Json) (u : String) → required_name w ≡ ok u → OnlyRaises by_schema (type_name w)
    one (str x) u q = OnlyRaises-ok x
    one null u q = absurd cc
    one (bool x) u q = absurd cc
    one (int x) u q = absurd cc
    one (float x) u q = absurd cc
    one (arr x) u q = absurd cc
    one (obj x) u q = absurd cc

pub test_type-raises : (v t : Json) → check_type t ≡ ok tt → OnlyRaises by_schema (test_type v t)
unfolding check_type test_type
test_type-raises v null h = OnlyRaises-ok tt
test_type-raises v (str s) h = OnlyRaises-guard _ value_error refl
test_type-raises v (arr xs) h =
    let (ts, e, h1) = >>=-eq-ok (map_result json_type (elements xs)) _ h in
    OnlyRaises-bind (map_result type_name (elements xs)) _ (types-raises (elements xs) ts e)
      (λ allowed. OnlyRaises-guard _ value_error refl)
test_type-raises v (bool b) h = absurd cc
test_type-raises v (int b) h = absurd cc
test_type-raises v (float b) h = absurd cc
test_type-raises v (obj b) h = absurd cc

pub test_enum-raises :
    (v : Json) (o : Option Json) → check_enum o ≡ ok tt → OnlyRaises by_schema (test_enum v o)
unfolding test_enum
test_enum-raises v none h = OnlyRaises-ok tt
test_enum-raises v (some (arr xs)) h = OnlyRaises-guard _ value_error refl
test_enum-raises v (some (str b)) h = absurd cc
test_enum-raises v (some (obj b)) h = absurd cc
test_enum-raises v (some _) h = absurd cc

size_limit-raises : (o : Option Json) → check_size o ≡ ok tt → OnlyRaises by_schema (size_limit o)
unfolding size_limit
size_limit-raises none h = OnlyRaises-ok none
size_limit-raises (some null) h = OnlyRaises-ok none
size_limit-raises (some (int (pos n))) h = OnlyRaises-ok (some n)
size_limit-raises (some (int (negsuc n))) h = absurd cc
size_limit-raises (some _) h = absurd cc

pub test_size-raises :
    (s : Dict Json) (lower upper : String) (n : ℕ)
    → check_size (lookup lower s) ≡ ok tt
    → check_size (lookup upper s) ≡ ok tt
    → OnlyRaises by_schema (test_size s lower upper n)
unfolding test_size
test_size-raises s lower upper n h k =
    OnlyRaises-bind (size_limit (lookup lower s)) _ (size_limit-raises (lookup lower s) h) (λ a.
      OnlyRaises-bind (size_limit (lookup upper s)) _ (size_limit-raises (lookup upper s) k)
        (λ b. search raise_rules))

pub test_limit-raises :
    (within : ℤ × ℤ → Bool) (o : Option Json)
    → check_limit o ≡ ok tt
    → OnlyRaises by_schema (test_limit within o)
unfolding test_limit
test_limit-raises within none h = OnlyRaises-ok tt
test_limit-raises within (some null) h = OnlyRaises-err type_error refl
test_limit-raises within (some (int n)) h = OnlyRaises-guard _ value_error refl
test_limit-raises within (some (float (finite m e))) h = OnlyRaises-guard _ value_error refl
test_limit-raises within (some (float (infinite b))) h = absurd cc
test_limit-raises within (some (float nan)) h = absurd cc
test_limit-raises within (some _) h = absurd cc

pub name_list-raises :
    (v : Json) (m : Dict Json) → check_required v m ≡ ok tt → OnlyRaises by_schema (name_list v)
unfolding check_required
name_list-raises (arr xs) m h =
    let (ts, e, h1) = >>=-eq-ok (map_result required_name (elements xs)) _ h in
    names-raises (elements xs) ts e
name_list-raises _ m h = absurd cc

pub wants_unique-raises :
    (o : Option Json) → check_unique_items o ≡ ok tt → OnlyRaises by_schema (wants_unique o)
wants_unique-raises none h = OnlyRaises-ok _
wants_unique-raises (some (bool b)) h = OnlyRaises-ok b
wants_unique-raises (some _) h = absurd cc

pub each-parts :
    (check : String → Result (Unit {0})) (ks : List String)
    → each check ks ≡ ok tt
    → All (λ k. check k ≡ ok tt) ks
each-parts check [] h = tt
each-parts check (k ∷ ks) h =
    let (u, e, rest) = >>=-eq-ok (check k) (λ _. each check ks) h in (e, each-parts check ks rest)

pub check_each-parts :
    (check : Json → Result (Unit {0})) (vs : List Json)
    → check_each check vs ≡ ok tt
    → All (λ v. check v ≡ ok tt) vs
check_each-parts check [] h = tt
check_each-parts check (v ∷ vs) h =
    let (u, e, rest) = >>=-eq-ok (check v) (λ _. check_each check vs) h in
    (e, check_each-parts check vs rest)

pub All-lookup :
    (P : Json → Type 0) (k : String) (m : Dict Json) (v : Json)
    → All P (values m)
    → lookup k m ≡ some v
    → P v
unfolding lookup
All-lookup P k [] v h e = absurd cc
All-lookup P k ((j, w) ∷ m) v h e = elim (Bool-cases (j == k)) [
  | inl same ↦ let q : w ≡ v = ground arith in rw (← q) (h.0)
  | inr other ↦ All-lookup P k m v h.1 (ground arith)
]

-- The checks that an accepted schema passed.
pub record IsAccepted (accept : Json → Result (Unit {0})) (s : Dict Json) : Type 0 where
  pub typed : check_type (get_or s "type" null) ≡ ok tt
  pub listed : check_enum (lookup "enum" s) ≡ ok tt
  pub any_of : check_any_of accept (get_or s "anyOf" null) ≡ ok tt
  pub table : Dict Json
  pub properties : check_properties accept (get_or s "properties" (obj end)) ≡ ok table
  pub required : check_required (get_or s "required" (arr nil)) table ≡ ok tt
  pub additional : check_additional accept (get_or s "additionalProperties" (bool true)) ≡ ok tt
  pub items : check_items accept (lookup "items" s) ≡ ok tt
  pub bounds : check_bounds s ≡ ok tt

keywords_parts :
    (s : Dict Json)
    → check_keywords s ≡ ok tt
    → (check_type (get_or s "type" null) ≡ ok tt) × (check_enum (lookup "enum" s) ≡ ok tt)
unfolding check_keywords
keywords_parts s h =
    let (u0, e0, h0) = >>=-eq-ok (guard (all (contains schema_keys) (keys s)) value_error) _ h in
    let (u1, e1, h1) = >>=-eq-ok (check_type (get_or s "type" null)) _ h0 in
    let (u2, e2, h2) = >>=-eq-ok (check_description (lookup "description" s)) _ h1 in (e1, h2)

pub accepted :
    (accept : Json → Result (Unit {0})) (s : Dict Json)
    → check_schema accept s ≡ ok tt
    → IsAccepted accept s
unfolding check_schema
accepted accept s h =
    let (u0, e0, h0) = >>=-eq-ok (check_keywords s) _ h in
    let (u1, e1, h1) = >>=-eq-ok (check_any_of accept (get_or s "anyOf" null)) _ h0 in
    let (m, e2, h2) = >>=-eq-ok (check_properties accept (get_or s "properties" (obj end))) _ h1 in
    let (u3, e3, h3) = >>=-eq-ok (check_required (get_or s "required" (arr nil)) m) _ h2 in
    let (u4, e4, h4) =
      >>=-eq-ok (check_additional accept (get_or s "additionalProperties" (bool true))) _ h3 in
    let (u5, e5, h5) = >>=-eq-ok (check_items accept (lookup "items" s)) _ h4 in
    let (types, enums) = keywords_parts s e0 in
    record {
      typed = types;
      listed = enums;
      any_of = e1;
      table = m;
      properties = e2;
      required = e3;
      additional = e4;
      items = e5;
      bounds = h5;
    }
