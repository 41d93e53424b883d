-- ===== src/Result.antt =====
-- Exceptions as values: the classes that the modelled code raises, without their messages.
use alpha_orchestration.Prelude.{◌≡◌, refl, Bool, true, false, Option, none, some, List, [], ◌∷◌}

-- Two are no exceptions of the source: `no_fuel` marks a loop whose bound was too small, and
-- `off_model` an input on which the model does not follow the source.
pub data Error : Type 0 where
  state_invariant value_error type_error key_error overflow_error runtime_error no_fuel off_model :
      Error

-- A call that returned, or the class of what it raised.
pub data Result {ℓ} (A : Type ℓ) : Type ℓ where
  err : Error → Result A
  ok : A → Result A

-- `if not test: raise error`
abbrev pub guard : (test : Bool) (error : Error) → Result (Unit {0})
guard false error = err error
guard true error = ok tt

infixl 5 ◌>>=◌ ◌>>◌
-- The next statement, unless an exception is on its way.
abbrev pub ◌>>=◌ {ℓ κ} : {V : Type ℓ} {W : Type κ} → Result V → (V → Result W) → Result W
err error >>= next = err error
ok value >>= next = next value

abbrev pub ◌>>◌ {ℓ} : {W : Type ℓ} → Result (Unit {0}) → Result W → Result W
check >> rest = check >>= λ done. rest

abbrev pub or_raise {ℓ} : {A : Type ℓ} → Option A → Error → Result A
or_raise none e = err e
or_raise (some a) e = ok a

-- `[f(x) for x in xs]`, which stops at the first exception.
abbrev pub map_result {ℓ κ} : {A : Type ℓ} {B : Type κ} → (A → Result B) → List A → Result (List B)
map_result f [] = ok []
map_result f (x ∷ xs) = do y ← f x; ys ← map_result f xs; ok (y ∷ ys)

-- Inversion of a successful bind, for proofs where the parts stay shut.
pub >>=-eq-ok {ℓ κ} :
    {V : Type ℓ} {W : Type κ} (first : Result V) (next : V → Result W) {w : W}
    → (first >>= next) ≡ ok w
    → (v : V) × (first ≡ ok v) × (next v ≡ ok w)
>>=-eq-ok (err error) next q = cc
>>=-eq-ok (ok v) next q = (v, refl, q)

pub guard-eq-ok {ℓ} :
    {B : Type ℓ} (b : Bool) (e : Error) (k : Result B) {x : B}
    → (guard b e >> k) ≡ ok x
    → (b ≡ true) × (k ≡ ok x)
guard-eq-ok true e k h = (refl, h)
guard-eq-ok false e k h = cc
