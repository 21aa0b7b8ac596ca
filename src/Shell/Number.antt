-- ===== src/Shell/Number.antt =====
-- atoi of kernel/software/shell.c by the digits of a number.
use ucas_os.Common.{
  ℕ, ◌+◌, ◌-◌, ◌*◌, ◌^◌, ◌≤◌, ◌≡◌, ◌∙◌, refl, inl, inr, Bool, true, false, ◌&&◌, List, [], ◌∷◌,
  ◌++◌, ◌∉◌, length, arith, ◌==◌, if◌then◌else◌, Bool-cases,
}
use native.Mathlib.Nat.{add-mul, mul_assoc, mul_comm}
use native.Mathlib.Numerals.{unary_clauses}
use ucas_os.Screen.{u32}
use ucas_os.Shell.{atoi, atoi_from, minus_one, is_digit}

abbrev pub all_digits : List ℕ → Bool
all_digits [] = true
all_digits (c ∷ w) = is_digit c && all_digits w

-- each digit by its power of ten
abbrev pub decimal : List ℕ → ℕ
decimal [] = 0
decimal (c ∷ w) = (c - 48) * 10 ^ length w + decimal w

-- the int that a word stands for
abbrev pub number : List ℕ → ℕ
number w = if all_digits w then u32 (decimal w) else minus_one

-- and from the left, with `a` so far
abbrev from_left : ℕ → List ℕ → ℕ
from_left a [] = a
from_left a (c ∷ w) = from_left (a * 10 + (c - 48)) w

mul-scale : (a d p r : ℕ) → (a * 10 + d) * p + r ≡ a * (p * 10) + (d * p + r)
mul-scale a d p r = rw (add-mul (a * 10) d p, mul_assoc a 10 p, mul_comm 10 p) (omega arith)

from_left-decimal : (a : ℕ) (w : List ℕ) → from_left a w ≡ a * 10 ^ length w + decimal w
from_left-decimal a [] = omega arith
from_left-decimal a (c ∷ w) =
    from_left-decimal (a * 10 + (c - 48)) w
    ∙ simp unary_clauses (mul-scale a (c - 48) (10 ^ length w) (decimal w))

u32-step : (a d : ℕ) → 48 ≤ d → u32 (u32 a * 10 + d - 48) ≡ u32 (a * 10 + (d - 48))
u32-step a d h = omega arith

-- the loop on a string without a 0, up to the 0 that ends it
atoi_from-from_left :
    (a : ℕ) (w : List ℕ)
    → 0 ∉ w
    → atoi_from (u32 a) (w ++ (0 ∷ [])) ≡ (if all_digits w then u32 (from_left a w) else minus_one)
unfolding atoi_from
atoi_from-from_left a [] h = refl
atoi_from-from_left a (c ∷ w) h = elim (Bool-cases (is_digit c)) [
  | inl e ↦
      let ge : 48 ≤ c = ground arith in
      let z : (c == 0) ≡ false = ground arith in
      rw (z, e, u32-step a c ge) (atoi_from-from_left (a * 10 + (c - 48)) w (ground arith))
  | inr e ↦ let z : (c == 0) ≡ false = ground arith in rw (z, e) refl
]

-- atoi of a string of digits returns the number that they are in decimal, modulo 2^32; of any
-- other string it returns -1.
pub atoi-number : (w : List ℕ) → 0 ∉ w → atoi (w ++ (0 ∷ [])) ≡ number w
unfolding atoi
atoi-number w h =
    atoi_from-from_left 0 w h
    ∙ rw (from_left-decimal 0 w)
        (let z : 0 * 10 ^ length w + decimal w ≡ decimal w = omega arith in rw z refl)
