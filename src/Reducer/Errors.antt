-- ===== src/Reducer/Errors.antt =====
-- Which exceptions the reducer can raise: rules for each way to build a result, and the payload
-- readers.
use alpha_orchestration.Prelude.{
  ◌≡◌, refl, String, Bool, true, false, Option, none, some, List, [], ◌∷◌, arith,
}
use alpha_orchestration.Prelude.Dict.{Dict}
use alpha_orchestration.Result.{
  Error, Result, ok, err, guard, or_raise, map_result, ◌>>=◌, state_invariant, value_error,
  type_error, overflow_error,
}
use alpha_orchestration.Json.{Json}
use alpha_orchestration.Json.Python.{Python, to_int}
use alpha_orchestration.Domain.Candidate.{CandidateFinancial, make_financial}
use alpha_orchestration.Reducer.Payload.{
  require, stripped, nonempty_string, optional_nonempty_string, optional_string, string_tuple,
  as_list, as_dict, except_value, candidate_financial, candidate_financials, to_float, is_number,
}

-- Whenever `r` raises, the class passes the test `p`.
pub record OnlyRaises {ℓ} {A : Type ℓ} (p : Error → Bool) (r : Result A) : Type ℓ where
  pub at : (e : Error) → r ≡ err e → p e ≡ true

-- The classes that payload readers raise.
abbrev pub by_payload : Error → Bool
by_payload state_invariant = true
by_payload value_error = true
by_payload type_error = true
by_payload overflow_error = true
by_payload _ = false

module _ {ℓ} {A : Type ℓ} {p : Error → Bool} where
  pub OnlyRaises-ok : (a : A) → OnlyRaises p (ok a)
  OnlyRaises-ok a = record { at = λ e h. cc }

  pub OnlyRaises-err : (e : Error) → p e ≡ true → OnlyRaises {A = A} p (err e)
  OnlyRaises-err e h = record { at = λ f q. ground arith }

  pub OnlyRaises-or : (o : Option A) (e : Error) → p e ≡ true → OnlyRaises p (or_raise o e)
  OnlyRaises-or none e h = OnlyRaises-err e h
  OnlyRaises-or (some a) e h = OnlyRaises-ok a

module _ {ℓ κ} {A : Type ℓ} {B : Type κ} {p : Error → Bool} where
  pub OnlyRaises-bind :
      (m : Result A) (f : A → Result B)
      → OnlyRaises p m
      → ((a : A) → OnlyRaises p (f a))
      → OnlyRaises p (m >>= f)
  OnlyRaises-bind (ok a) f hm hf = hf a
  OnlyRaises-bind (err e) f hm hf = OnlyRaises-err e (hm.at e refl)

  -- The same where the rest may use that the first part succeeded.
  pub OnlyRaises-bind_eq :
      (m : Result A) (f : A → Result B)
      → OnlyRaises p m
      → ((a : A) → m ≡ ok a → OnlyRaises p (f a))
      → OnlyRaises p (m >>= f)
  OnlyRaises-bind_eq (ok a) f hm hf = hf a refl
  OnlyRaises-bind_eq (err e) f hm hf = OnlyRaises-err e (hm.at e refl)

pub OnlyRaises-guard :
    {p : Error → Bool} (b : Bool) (e : Error) → p e ≡ true → OnlyRaises p (guard b e)
OnlyRaises-guard true e h = OnlyRaises-ok tt
OnlyRaises-guard false e h = OnlyRaises-err e h

pub ruleset raise_rules =
    (OnlyRaises-ok, OnlyRaises-err, OnlyRaises-or, OnlyRaises-bind, OnlyRaises-guard, refl)

module _ (payload : Dict Json) (k : String) where
  pub require-raises : OnlyRaises by_payload (require payload k)
  unfolding require
  require-raises = search raise_rules

  pub stripped-raises : (v : Json) → OnlyRaises by_payload (stripped v)
  stripped-raises v = record { at = λ e h. ground arith }

  pub nonempty_string-raises : OnlyRaises by_payload (nonempty_string payload k)
  unfolding nonempty_string
  nonempty_string-raises = search (raise_rules, require-raises, stripped-raises)

  pub optional_nonempty_string-raises :
      (default : String) → OnlyRaises by_payload (optional_nonempty_string payload k default)
  unfolding optional_nonempty_string
  optional_nonempty_string-raises default = record {
    at = λ e h. ground (arith, nonempty_string-raises.at e);
  }

  pub optional_string-raises :
      (default : String) → OnlyRaises by_payload (optional_string payload k default)
  unfolding optional_string
  optional_string-raises default = record { at = λ e h. ground arith }

pub as_list-raises : (v : Json) → OnlyRaises by_payload (as_list v)
as_list-raises v = record { at = λ e h. ground arith }

pub as_dict-raises : (v : Json) → OnlyRaises by_payload (as_dict v)
as_dict-raises v = record { at = λ e h. ground arith }

pub map_result-raises {ℓ κ} :
    {A : Type ℓ} {B : Type κ} {p : Error → Bool} (f : A → Result B) (xs : List A)
    → ((a : A) → OnlyRaises p (f a))
    → OnlyRaises p (map_result f xs)
map_result-raises f [] h = OnlyRaises-ok []
map_result-raises f (x ∷ xs) h =
    OnlyRaises-bind (f x) (λ y. map_result f xs >>= λ ys. ok (y ∷ ys)) (h x)
      (λ y.
        OnlyRaises-bind (map_result f xs) (λ ys. ok (y ∷ ys)) (map_result-raises f xs h)
          (λ ys. OnlyRaises-ok (y ∷ ys)))

pub string_tuple-raises :
    (payload : Dict Json) (k : String) → OnlyRaises by_payload (string_tuple payload k)
unfolding string_tuple
string_tuple-raises payload k =
    search (raise_rules, as_list-raises, map_result-raises, stripped-raises payload k)

pub except_value-raises {ℓ} :
    {A : Type ℓ} (r : Result A) → OnlyRaises by_payload r → OnlyRaises by_payload (except_value r)
except_value-raises r h = record { at = λ e q. ground (arith, h.at e) }

make_financial-raises : (f : CandidateFinancial) → OnlyRaises by_payload (make_financial f)
unfolding make_financial
make_financial-raises f = search raise_rules

module _ (py : Python) where
  pub to_int-raises : (v : Json) → OnlyRaises by_payload (to_int py v)
  unfolding to_int
  to_int-raises v = record { at = λ e h. ground arith }

  to_float-raises : (v : Json) → OnlyRaises by_payload (to_float py v)
  to_float-raises v = record { at = λ e h. ground arith }

  is_number-raises : (v : Json) → OnlyRaises by_payload (is_number py v)
  is_number-raises v = record { at = λ e h. ground arith }

  candidate_financial-raises : (raw : Json) → OnlyRaises by_payload (candidate_financial py raw)
  unfolding candidate_financial
  candidate_financial-raises raw =
      search
        (
          raise_rules, as_dict-raises, require-raises, is_number-raises, nonempty_string-raises,
          to_float-raises, string_tuple-raises, make_financial-raises, except_value-raises,
        )
        depth 30

  pub candidate_financials-raises :
      (payload : Dict Json) → OnlyRaises by_payload (candidate_financials py payload)
  unfolding candidate_financials
  candidate_financials-raises payload =
      search (raise_rules, as_list-raises, map_result-raises, candidate_financial-raises)
