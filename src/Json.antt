-- ===== src/Json.antt =====
-- `JsonValue` of domain.py: what `json.loads` returns and what event payloads hold.
pub mod Python
pub mod Equality
pub mod Sorted
use alpha_orchestration.Prelude.{String, Bool, ℕ, List, [], ◌∷◌}
use alpha_orchestration.Prelude.Int.{ℤ}
use alpha_orchestration.Prelude.Dict.{Dict}

-- A Python float: mantissa times a power of two, or one of the non-finite values.
pub data Float : Type 0 where
  finite : ℤ → ℤ → Float
  infinite : Bool → Float
  nan : Float

mutual
  pub data Json : Type 0 where
    null : Json
    bool : Bool → Json
    int : ℤ → Json
    float : Float → Json
    str : String → Json
    arr : Items → Json
    obj : Fields → Json

  pub data Items : Type 0 where
    nil : Items
    cons : Json → Items → Items

  pub data Fields : Type 0 where
    end : Fields
    field : String → Json → Fields → Fields

abbrev pub elements : Items → List Json
elements nil = []
elements (cons x xs) = x ∷ elements xs

abbrev pub entries : Fields → Dict Json
entries end = []
entries (field k v fs) = (k, v) ∷ entries fs

abbrev pub items : List Json → Items
items [] = nil
items (x ∷ xs) = cons x (items xs)

abbrev pub fields : Dict Json → Fields
fields [] = end
fields ((k, v) ∷ m) = field k v (fields m)
