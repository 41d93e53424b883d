-- ===== src/Actions/Repair.antt =====
-- Which errors of `parse_action` a model may be asked to repair.
use alpha_orchestration.Prelude.{
  ◌≡◌, refl, ℕ, String, Bool, true, false, Option, List, [], ◌∷◌, arith, if◌then◌else◌, ltb, leb,
  length,
}
use alpha_orchestration.Prelude.Dict.{Dict}
use alpha_orchestration.Json.{Json, arr, obj, elements}
use alpha_orchestration.Actions.{
  Reading, read, refused, bad_limit, ◌>>=◌, insist, ActionErrorCode, Decoder, Loaded, kind_of,
  require_object, require_exact_keys, item, text, parse_call, parse_calls, parse_tool_calls,
  of_loaded, parse_envelope, as_raw, size_of, positive, parse_action, action_too_large,
  invalid_envelope, tool_call_limit,
}

-- The two limits are final, everything else may be repaired.
abbrev pub can_repair : ActionErrorCode → Bool
can_repair action_too_large = false
can_repair tool_call_limit = false
can_repair _ = true

-- Whenever `r` refuses, its flag is the one of its code.
pub record IsFlagged {ℓ} {A : Type ℓ} (r : Reading A) : Type ℓ where
  pub at :
      (code : ActionErrorCode) (repairable : Bool)
      → r ≡ refused code repairable
      → repairable ≡ can_repair code

module _ {ℓ} {A : Type ℓ} where
  read-IsFlagged : (a : A) → IsFlagged (read a)
  read-IsFlagged a = record { at = λ c r h. absurd cc }

  refused-IsFlagged :
      (c : ActionErrorCode) (r : Bool) → r ≡ can_repair c → IsFlagged {A = A} (refused c r)
  refused-IsFlagged c r e = record { at = λ d q h. ground arith }

bind-IsFlagged {ℓ κ} :
    {A : Type ℓ} {B : Type κ} (m : Reading A) (f : A → Reading B)
    → IsFlagged m
    → ((a : A) → IsFlagged (f a))
    → IsFlagged (m >>= f)
bind-IsFlagged (read a) f hm hf = hf a
bind-IsFlagged (refused c r) f hm hf = refused-IsFlagged c r (hm.at c r refl)
bind-IsFlagged bad_limit f hm hf = record { at = λ c r h. absurd cc }

insist-IsFlagged :
    (b : Bool) (c : ActionErrorCode) (r : Bool) → r ≡ can_repair c → IsFlagged (insist b c r)
insist-IsFlagged true c r e = read-IsFlagged tt
insist-IsFlagged false c r e = refused-IsFlagged c r e

ruleset flag_rules = (read-IsFlagged, refused-IsFlagged, bind-IsFlagged, insist-IsFlagged, refl)

require_object-IsFlagged : (v : Json) → IsFlagged (require_object v)
unfolding require_object
require_object-IsFlagged (obj fs) = search flag_rules
require_object-IsFlagged _ = search flag_rules

require_exact_keys-IsFlagged :
    (m : Dict Json) (ks : List String) → IsFlagged (require_exact_keys m ks)
unfolding require_exact_keys
require_exact_keys-IsFlagged m ks = search flag_rules

item-IsFlagged : (k : String) (m : Dict Json) → IsFlagged (item k m)
item-IsFlagged k m = record { at = λ c r h. ground arith }

text-IsFlagged : (v : Json) → IsFlagged (text v)
text-IsFlagged v = record { at = λ c r h. ground arith }

parse_call-IsFlagged : (v : Json) → IsFlagged (parse_call v)
unfolding parse_call
parse_call-IsFlagged v =
    search
      (
        flag_rules, require_object-IsFlagged, require_exact_keys-IsFlagged, item-IsFlagged,
        text-IsFlagged,
      )
      depth 40

parse_calls-IsFlagged : (vs : List Json) → IsFlagged (parse_calls vs)
unfolding parse_calls
parse_calls-IsFlagged [] = search flag_rules
parse_calls-IsFlagged (v ∷ vs) =
    search (flag_rules, parse_call-IsFlagged v, parse_calls-IsFlagged vs)

parse_tool_calls-IsFlagged : (max_calls : ℕ) (v : Json) → IsFlagged (parse_tool_calls max_calls v)
unfolding parse_tool_calls
parse_tool_calls-IsFlagged max_calls (arr xs) =
    bind-IsFlagged (insist (ltb 0 (length (elements xs))) invalid_envelope true) _
      (insist-IsFlagged _ invalid_envelope true refl)
      (λ u.
        bind-IsFlagged (insist (leb (length (elements xs)) max_calls) tool_call_limit false) _
          (insist-IsFlagged _ tool_call_limit false refl)
          (λ w. search (flag_rules, parse_calls-IsFlagged (elements xs))))
parse_tool_calls-IsFlagged max_calls _ = search flag_rules

choice-IsFlagged {ℓ} :
    {A : Type ℓ} (b : Bool) (m n : Reading A)
    → IsFlagged m
    → IsFlagged n
    → IsFlagged (if b then m else n)
choice-IsFlagged true m n hm hn = hm
choice-IsFlagged false m n hm hn = hn

parse_envelope-IsFlagged :
    (max_calls : ℕ) (m : Dict Json) (kind : String) → IsFlagged (parse_envelope max_calls m kind)
unfolding parse_envelope
parse_envelope-IsFlagged max_calls m kind =
    search
      (
        flag_rules,
        choice-IsFlagged,
        require_object-IsFlagged,
        require_exact_keys-IsFlagged,
        item-IsFlagged,
        parse_tool_calls-IsFlagged max_calls,
      )
      depth 40

positive-IsFlagged : (n : ℕ) → IsFlagged (positive n)
positive-IsFlagged n = record { at = λ c r h. ground arith }

as_raw-IsFlagged : (v : Json) → IsFlagged (as_raw v)
as_raw-IsFlagged v = record { at = λ c r h. ground arith }

size_of-IsFlagged : (o : Option ℕ) → IsFlagged (size_of o)
size_of-IsFlagged o = record { at = λ c r h. ground arith }

of_loaded-IsFlagged : (l : Loaded) → IsFlagged (of_loaded l)
of_loaded-IsFlagged l = record { at = λ c r h. ground arith }

kind_of-IsFlagged : (o : Option Json) → IsFlagged (kind_of o)
kind_of-IsFlagged o = record { at = λ c r h. ground arith }

-- Whatever `parse_action` is given, an ActionParseError that it raises is marked as not repairable
-- exactly when its code is that of the size limit or of the limit on the calls of a batch.
pub parse_action-IsFlagged :
    (decoder : Decoder) (max_bytes max_calls : ℕ) (raw : Json) (code : ActionErrorCode)
    (repairable : Bool)
    → parse_action decoder max_bytes max_calls raw ≡ refused code repairable
    → repairable ≡ can_repair code
unfolding parse_action
parse_action-IsFlagged decoder max_bytes max_calls raw code repairable h =
    flagged.at code repairable h
  where
    flagged : IsFlagged (parse_action decoder max_bytes max_calls raw)
    flagged =
        search
          (
            flag_rules, positive-IsFlagged, as_raw-IsFlagged, size_of-IsFlagged,
            of_loaded-IsFlagged, require_object-IsFlagged, kind_of-IsFlagged, text-IsFlagged,
            parse_envelope-IsFlagged,
          )
          depth 60
