-- ===== src/Dag/Readers.antt =====
-- What the readers of `TaskDefinition` ensure of each field.
use alpha_orchestration.Prelude.{
  ◌≡◌, subst, refl, ℕ, suc, ◌≤◌, String, Bool, true, false, List, [], ◌∷◌, arith, leb, length,
}
use alpha_orchestration.Prelude.Dict.{Dict, lookup}
use alpha_orchestration.Result.{
  Result, ok, err, value_error, state_invariant, type_error, key_error, overflow_error,
  runtime_error, no_fuel, off_model,
}
use alpha_orchestration.Json.{Json, int, str, arr, obj, elements, fields}
use alpha_orchestration.Prelude.Int.{pos, negsuc}
use alpha_orchestration.Schema.{validate_schema}
use alpha_orchestration.Dag.{
  Checked, valid, invalid, raised, ◌>>=◌, ◌>>◌, insist, DagErrorCode, is_name, validate_name,
  as_text, as_texts, string_tuple, bounded_int, of_schema_check, canonical_object, is_object_type,
  read_schema,
}

-- Whenever a check accepts, its value has the property.
pub record Ensures {ℓ κ} {A : Type ℓ} (P : A → Type κ) (r : Checked A) : Type (ℓ ⊔ κ) where
  pub at : (a : A) → r ≡ valid a → P a

module _ {ℓ κ} {A : Type ℓ} {P : A → Type κ} where
  pub Ensures-valid : (a : A) → P a → Ensures P (valid a)
  Ensures-valid a p = record { at = λ b h. subst P (valid-injective a b h) p }
    where
      valid-injective : (x y : A) → valid x ≡ valid y → x ≡ y
      valid-injective x y h = cc

  Ensures-invalid : (code : DagErrorCode) → Ensures P (invalid code)
  Ensures-invalid code = record { at = λ b h. absurd cc }

module _ {ℓ κ μ} {A : Type ℓ} {B : Type κ} {P : B → Type μ} where
  pub Ensures-bind :
      (m : Checked A) (f : A → Checked B)
      → ((a : A) → m ≡ valid a → Ensures P (f a))
      → Ensures P (m >>= f)
  Ensures-bind (valid a) f h = h a refl
  Ensures-bind (invalid code) f h = record { at = λ b q. absurd cc }
  Ensures-bind (raised e) f h = record { at = λ b q. absurd cc }

module _ {κ μ} {B : Type κ} {P : B → Type μ} where
  pub Ensures-insist :
      (t : Bool) (code : DagErrorCode) (k : Checked B)
      → (t ≡ true → Ensures P k)
      → Ensures P (insist t code >> k)
  Ensures-insist true code k h = h refl
  Ensures-insist false code k h = record { at = λ b q. absurd cc }

pub validate_name-IsName :
    (maximum : ℕ) (v : Json) (s : String)
    → validate_name maximum v ≡ valid s
    → is_name maximum s ≡ true
unfolding validate_name
validate_name-IsName maximum (str t) s =
    (Ensures-insist {P = λ u. is_name maximum u ≡ true} (is_name maximum t)
        DagErrorCode.invalid_field (valid t) (λ h. Ensures-valid t h)).at
      s
validate_name-IsName maximum _ s = λ h. absurd cc

pub bounded_int-within :
    (minimum maximum : ℕ) (v : Json) (n : ℕ)
    → bounded_int minimum maximum v ≡ valid n
    → (minimum ≤ n) × (n ≤ maximum)
unfolding bounded_int
bounded_int-within minimum maximum (int (pos m)) n h = ground arith
bounded_int-within minimum maximum (int (negsuc m)) n h = absurd cc
bounded_int-within minimum maximum _ n h = absurd cc

as_texts-length :
    (vs : List Json) (ss : List String) → as_texts vs ≡ valid ss → length ss ≡ length vs
as_texts-length [] ss = λ h. ground arith
as_texts-length (v ∷ vs) ss =
    (Ensures-bind {P = λ us. length us ≡ suc (length vs)} (as_text v) _ (λ s e.
        Ensures-bind (as_texts vs) _
          (λ rest q. Ensures-valid (s ∷ rest) (omega (arith, as_texts-length vs rest q))))).at
      ss

pub string_tuple-length :
    (maximum : ℕ) (v : Json) (ss : List String)
    → string_tuple maximum v ≡ valid ss
    → length ss ≤ maximum
unfolding string_tuple
string_tuple-length maximum (arr xs) ss =
    (Ensures-insist {P = λ us. length us ≤ maximum} (leb (length (elements xs)) maximum)
        DagErrorCode.invalid_field (as_texts (elements xs))
        (λ h. record { at = λ us q. ground (arith, as_texts-length (elements xs) us q) })).at
      ss
string_tuple-length maximum _ ss = λ h. absurd cc

-- An output schema passes `validate_schema` and describes an object.
abbrev pub IsOutputSchema : Dict Json → Type 0
IsOutputSchema m =
    (validate_schema (obj (fields m)) ≡ ok tt) × (is_object_type (lookup "type" m) ≡ true)

of_schema_check-valid :
    (r : Result (Unit {0})) (u : Unit {0}) → of_schema_check r ≡ valid u → r ≡ ok tt
unfolding of_schema_check
of_schema_check-valid (ok x) u h = refl
of_schema_check-valid (err value_error) u h = absurd cc
of_schema_check-valid (err state_invariant) u h = absurd cc
of_schema_check-valid (err type_error) u h = absurd cc
of_schema_check-valid (err key_error) u h = absurd cc
of_schema_check-valid (err overflow_error) u h = absurd cc
of_schema_check-valid (err runtime_error) u h = absurd cc
of_schema_check-valid (err no_fuel) u h = absurd cc
of_schema_check-valid (err off_model) u h = absurd cc

pub read_schema-IsOutputSchema :
    (v : Json) (m : Dict Json) → read_schema v ≡ valid m → IsOutputSchema m
unfolding read_schema
read_schema-IsOutputSchema v m =
    (Ensures-bind {P = IsOutputSchema} (canonical_object v) _ (λ s e.
        Ensures-bind (of_schema_check (validate_schema (obj (fields s)))) _ (λ u q.
          Ensures-insist (is_object_type (lookup "type" s)) DagErrorCode.invalid_field (valid s)
            (λ t. Ensures-valid s (of_schema_check-valid _ u q, t))))).at
      m
