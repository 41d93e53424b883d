-- ===== src/Prelude/Dict.antt =====
-- Python dictionaries with text keys: association lists in the order of insertion.
use alpha_orchestration.Prelude.{
  String, ◌≡◌, Bool, true, false, Option, none, some, List, [], ◌∷◌, arith, ◌==◌, eq_iff,
  if◌then◌else◌, Bool-cases, ◌⊎◌, inl, inr,
}
use mathlib.Core.Path.{refl}

abbrev pub Dict {ℓ} : Type ℓ → Type ℓ
Dict V = List (String × V)

module _ {ℓ} {V : Type ℓ} where
  unfoldable pub lookup : String → Dict V → Option V
  lookup key [] = none
  lookup key ((here, value) ∷ rest) = if here == key then some value else lookup key rest

  -- `d[key] = value`: an old key keeps its place, a new one goes to the end.
  unfoldable pub insert : String → V → Dict V → Dict V
  insert key value [] = (key, value) ∷ []
  insert key value ((here, old) ∷ rest) =
      if here == key then (here, value) ∷ rest else (here, old) ∷ insert key value rest

  abbrev pub keys : Dict V → List String
  keys [] = []
  keys ((k, v) ∷ m) = k ∷ keys m

  abbrev pub values : Dict V → List V
  values [] = []
  values ((k, v) ∷ m) = v ∷ values m

  abbrev pub has_key : String → Dict V → Bool
  has_key k m = elim (lookup k m) [ none ↦ false | some v ↦ true ]

  pub lookup-insert :
      (key other : String) (value : V) (entries : Dict V)
      → lookup other (insert key value entries)
        ≡ (if key == other then some value else lookup other entries)
  unfolding lookup insert
  lookup-insert key other value [] = refl
  lookup-insert key other value ((here, old) ∷ rest) = ground (
    arith,
    eq_iff here key,
    eq_iff here other,
    eq_iff key other,
    lookup-insert key other value rest,
  )

  pub lookup-insert_cases :
      (k j : String) (v w : V) (m : Dict V)
      → lookup j (insert k v m) ≡ some w
      → ((k ≡ j) × (w ≡ v)) ⊎ (lookup j m ≡ some w)
  lookup-insert_cases k j v w m h = elim (Bool-cases (k == j)) [
    | inl e ↦ inl (ground (arith, eq_iff k j), ground (arith, lookup-insert k j v m))
    | inr e ↦ inr (ground (arith, lookup-insert k j v m))
  ]
