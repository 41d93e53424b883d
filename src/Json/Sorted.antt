-- ===== src/Json/Sorted.antt =====
-- `json.loads(json.dumps(value, sort_keys=True))` on finite values: the keys of every object in the
-- order of their code points.
use Prim.Native.Char.{code}
use alpha_orchestration.Prelude.{String, Bool, true, false, ltb, eqb, if◌then◌else◌}
use alpha_orchestration.Json.{Json, arr, obj, Items, nil, cons, Fields, end, field}

-- `a <= b` on texts.
abbrev pub text_leb : String → String → Bool
text_leb String.[] t = true
text_leb (String.◌∷◌ c s) String.[] = false
text_leb (String.◌∷◌ c s) (String.◌∷◌ d t) =
    let rest = text_leb s t in if eqb (code c) (code d) then rest else ltb (code c) (code d)

abbrev pub place : String → Json → Fields → Fields
place k v end = field k v end
place k v (field j w fs) =
    let rest = place k v fs in if text_leb k j then field k v (field j w fs) else field j w rest

unfoldable mutual
  pub sort_keys : Json → Json
  sort_keys (arr xs) = arr (sort_items xs)
  sort_keys (obj fs) = obj (sort_fields fs)
  sort_keys v = v

  pub sort_items : Items → Items
  sort_items nil = nil
  sort_items (cons x xs) = cons (sort_keys x) (sort_items xs)

  pub sort_fields : Fields → Fields
  sort_fields end = end
  sort_fields (field k v fs) = place k (sort_keys v) (sort_fields fs)
