-- ===== src/Prelude/Text.antt =====
-- `str.strip` over Python's white space characters.
use Prim.Native.Char.{Char, code}
use Prim.Native.String.{[], ◌∷◌}
use alpha_orchestration.Prelude.{
  ℕ, suc, String, ◌≡◌, refl, ap, Bool, true, false, ◌&&◌, ◌||◌, leb, eqb, Bool-cases, inl, inr,
  if◌then◌else◌,
}

-- The characters for which `str.isspace` is true.
unfoldable pub is_space : Char → Bool
is_space c =
    let n = code c in
    (leb 9 n && leb n 13)
    || (leb 28 n && leb n 32)
    || eqb n 133
    || eqb n 160
    || eqb n 5760
    || (leb 8192 n && leb n 8202)
    || eqb n 8232
    || eqb n 8233
    || eqb n 8239
    || eqb n 8287
    || eqb n 12288

abbrev pub is_empty : String → Bool
is_empty [] = true
is_empty (c ∷ s) = false

-- `text.lstrip()`, then `text.rstrip()`: a space goes only where no other character is beyond it.
lstrip : String → String
lstrip [] = []
lstrip (first ∷ rest) = if is_space first then lstrip rest else first ∷ rest

rstrip : String → String
rstrip [] = []
rstrip (first ∷ rest) =
    let kept = rstrip rest in if is_space first && is_empty kept then [] else first ∷ kept

unfoldable pub strip : String → String
unfolding lstrip rstrip is_space
strip text = rstrip (lstrip text)

-- `len(text)`
abbrev pub text_length : String → ℕ
text_length [] = 0
text_length (c ∷ s) = suc (text_length s)

strip_sides : strip " \tNVDA AMD " ≡ "NVDA AMD"
unfolding strip
strip_sides = refl

rstrip_twice : (text : String) → rstrip (rstrip text) ≡ rstrip text
unfolding rstrip
rstrip_twice [] = refl
rstrip_twice (first ∷ rest) = elim (Bool-cases (is_space first && is_empty (rstrip rest))) [
  | inr stays ↦ rw (stays, rstrip) (rw (rstrip_twice rest, stays) refl)
  | inl goes ↦ rw (goes, rstrip) refl
]

both_twice : (text : String) → rstrip (lstrip (rstrip (lstrip text))) ≡ rstrip (lstrip text)
unfolding rstrip lstrip
both_twice [] = refl
both_twice (first ∷ rest) = elim (Bool-cases (is_space first)) [
  | inr stays ↦
      rw stays (rw stays (rw stays (rw stays (ap (λ kept. first ∷ kept) (rstrip_twice rest)))))
  | inl goes ↦ rw goes (both_twice rest)
]

pub strip-strip : (s : String) → strip (strip s) ≡ strip s
unfolding strip
strip-strip s = both_twice s
