-- ===== src/Prelude/Lists.antt =====
-- Lists measured by native numbers, under the library's names, and searched by Boolean tests.
use Prim.Native.Nat.{ℕ, zero, suc, ◌+◌, ◌-◌, ◌≤◌}
use Prim.Native.String.{String}
use text.Mathlib.Text.{◌==◌}
use mathlib.Core.Path.{◌≡◌, refl, sym, ap, ◌∙◌, ◌≡⟨◌⟩◌, ◌∎}
use native.Mathlib.Nat.{suc-add}
use mathlib.Core.Bool.{Bool, true, false, ◌&&◌, ◌||◌, not}
use mathlib.Core.List.{List, [], ◌∷◌, ◌++◌}
use native.Mathlib.Omega.{arith}
use alpha_orchestration.Prelude.Tests.{if◌then◌else◌}

module _ {ℓ} {A : Type ℓ} where
  abbrev pub length : List A → ℕ
  length [] = 0
  length (x ∷ xs) = suc (length xs)

  pub length-append : (xs ys : List A) → length (xs ++ ys) ≡ length xs + length ys
  length-append [] ys = omega arith
  length-append (x ∷ xs) ys = omega (arith, length-append xs ys)

module _ {ℓ} {A : Type ℓ} where
  abbrev pub drop : ℕ → List A → List A
  drop zero xs = xs
  drop (suc n) [] = []
  drop (suc n) (x ∷ xs) = drop n xs

  -- `xs[-n:]`: the last `n` elements, all of them if there are fewer.
  abbrev pub take_last : ℕ → List A → List A
  take_last n xs = drop (length xs - n) xs

  pub length-drop : (n : ℕ) (xs : List A) → length (drop n xs) ≡ length xs - n
  length-drop zero xs = omega arith
  length-drop (suc n) [] = omega arith
  length-drop (suc n) (x ∷ xs) = omega (arith, length-drop n xs)

  abbrev pub all : (A → Bool) → List A → Bool
  all p [] = true
  all p (x ∷ xs) = p x && all p xs

  abbrev pub any : (A → Bool) → List A → Bool
  any p [] = false
  any p (x ∷ xs) = p x || any p xs

  abbrev pub keep : (A → Bool) → List A → List A
  keep p [] = []
  keep p (x ∷ xs) = let rest = keep p xs in if p x then x ∷ rest else rest

  -- A predicate by recursion computes to tuples, which the tactics read and build.
  abbrev pub All {κ} : (A → Type κ) → List A → Type κ
  All P [] = Unit
  All P (x ∷ xs) = P x × All P xs

abbrev pub contains : List String → String → Bool
contains [] a = false
contains (x ∷ xs) a = x == a || contains xs a

-- `len(values) == len(set(values))`
abbrev pub all_unique : List String → Bool
all_unique [] = true
all_unique (x ∷ xs) = not (contains xs x) && all_unique xs

module _ {ℓ} {A : Type ℓ} where
  drop-nil : (n : ℕ) → drop {A = A} n [] ≡ []
  drop-nil zero = refl
  drop-nil (suc n) = refl

  drop-drop : (m n : ℕ) (xs : List A) → drop m (drop n xs) ≡ drop (n + m) xs
  drop-drop m zero xs = ap (λ k. drop k xs) (omega arith)
  drop-drop m (suc n) [] = drop-nil m ∙ sym (drop-nil (suc n + m))
  drop-drop m (suc n) (x ∷ xs) = rw suc-add (drop-drop m n xs)

  drop-append : (n : ℕ) (xs ys : List A) → n ≤ length xs → drop n (xs ++ ys) ≡ drop n xs ++ ys
  drop-append zero xs ys h = refl
  drop-append (suc n) [] ys h = elim h [ ]
  drop-append (suc n) (x ∷ xs) ys h = drop-append n xs ys (omega arith)

  -- The window of the last `n + 1` elements moves by one element at a time.
  pub take_last-snoc :
      (n : ℕ) (xs : List A) (x : A)
      → take_last n (take_last (suc n) xs) ++ x ∷ [] ≡ take_last (suc n) (xs ++ x ∷ [])
  take_last-snoc n xs x =
      let a = length xs - suc n in
      take_last n (drop a xs) ++ x ∷ []
      ≡⟨ ap (λ ys. ys ++ x ∷ []) (drop-drop (length (drop a xs) - n) a xs) ⟩
        drop (a + (length (drop a xs) - n)) xs ++ x ∷ []
      ≡⟨ ap (λ k. drop k xs ++ x ∷ []) (omega (arith, length-drop a xs)) ⟩
        drop (length xs - n) xs ++ x ∷ []
      ≡⟨ sym (drop-append (length xs - n) xs (x ∷ []) (omega arith)) ⟩
        drop (length xs - n) (xs ++ x ∷ [])
      ≡⟨ ap (λ k. drop k (xs ++ x ∷ [])) (omega (arith, length-append xs (x ∷ []))) ⟩
        take_last (suc n) (xs ++ x ∷ []) ∎
