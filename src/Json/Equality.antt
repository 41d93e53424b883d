-- ===== src/Json/Equality.antt =====
-- Python's `==` on JSON values: numbers by value across `bool`, `int` and `float`, objects without
-- regard to the order of their keys.
use alpha_orchestration.Prelude.{
  ◌+◌, ◌*◌, ◌^◌, Bool, true, false, ◌&&◌, Option, none, some, ◌==◌, eqb, length, if◌then◌else◌,
}
use alpha_orchestration.Prelude.Int.{ℤ, pos, pos_part, neg_part}
use alpha_orchestration.Prelude.Dict.{lookup}
use alpha_orchestration.Json.{
  Float, finite, infinite, Json, null, bool, int, float, str, arr, obj, Items, nil, cons, Fields,
  end, field, entries,
}

-- The number m * 2 ^ e that a value stands for.
abbrev as_number : Json → Option (ℤ × ℤ)
as_number (bool b) = some (pos (if b then 1 else 0), pos 0)
as_number (int n) = some (n, pos 0)
as_number (float (finite m e)) = some (m, e)
as_number _ = none

-- m * 2 ^ e = n * 2 ^ f, brought to whole numbers.
abbrev same_number : ℤ × ℤ → ℤ × ℤ → Bool
same_number (m, e) (n, f) =
    let left = 2 ^ (pos_part e + neg_part f) in
    let right = 2 ^ (pos_part f + neg_part e) in
    eqb (pos_part m * left) (pos_part n * right) && eqb (neg_part m * left) (neg_part n * right)

abbrev same_flag : Bool → Bool → Bool
same_flag true b = b
same_flag false true = false
same_flag false false = true

abbrev same_infinite : Float → Float → Bool
same_infinite (infinite s) (infinite t) = same_flag s t
same_infinite _ _ = false

abbrev same_scalar : Json → Json → Bool
same_scalar (float (infinite s)) (float g) = same_infinite (infinite s) g
same_scalar a b = elim (as_number a) [
  | none ↦ false
  | some m ↦ elim (as_number b) [ none ↦ false | some n ↦ same_number m n ]
]

unfoldable mutual
  pub json_eq : Json → Json → Bool
  json_eq null b = elim b [ null ↦ true | _ ↦ false ]
  json_eq (str s) b = elim b [ str t ↦ s == t | _ ↦ false ]
  json_eq (bool x) b = same_scalar (bool x) b
  json_eq (int x) b = same_scalar (int x) b
  json_eq (float x) b = same_scalar (float x) b
  json_eq (arr xs) b = elim b [ arr ys ↦ items_eq xs ys | _ ↦ false ]
  json_eq (obj fs) b = elim b [
    | obj gs ↦ eqb (length (entries fs)) (length (entries gs)) && fields_eq fs gs
    | _ ↦ false
  ]

  pub items_eq : Items → Items → Bool
  items_eq nil ys = elim ys [ nil ↦ true | _ ↦ false ]
  items_eq (cons x xs) ys = elim ys [ nil ↦ false | cons y zs ↦ json_eq x y && items_eq xs zs ]

  pub fields_eq : Fields → Fields → Bool
  fields_eq end gs = true
  fields_eq (field k v fs) gs =
      (elim (lookup k (entries gs)) [ none ↦ false | some w ↦ json_eq v w ]) && fields_eq fs gs
