-- ===== src/Strings/Text.antt =====
-- The functions of libs/string.c by the text that a buffer holds.
use ucas_os.Common.{
  ℕ, zero, suc, ◌<◌, ◌≡◌, ◌≢◌, ◌↔◌, inl, inr, refl, ap, true, false, ◌&&◌, not, List, [], ◌∷◌,
  arith, ◌==◌, if◌then◌else◌, Option, none, some, length, get_elem?, Bool-cases,
}
use ucas_os.Strings.{strlen, strcpy, separate, same_string, difference, is_zero, after}

-- the bytes before the first 0
abbrev pub text : List ℕ → List ℕ
text [] = []
text (c ∷ s) = if c == 0 then [] else c ∷ text s

-- strlen returns the number of bytes before the first 0.
pub strlen-text : (s : List ℕ) → strlen s ≡ length (text s)
unfolding strlen
strlen-text [] = refl
strlen-text (c ∷ s) = elim (Bool-cases (c == 0)) [
  | inl e ↦ rw e
  | inr e ↦ rw e (ap suc (strlen-text s))
]

difference-zero : (a b : ℕ) → is_zero (difference a b) ≡ true → a ≡ b
difference-zero zero zero h = refl
difference-zero (suc a) zero h = cc
difference-zero zero (suc b) h = cc
difference-zero (suc a) (suc b) h = ap suc (difference-zero a b h)

difference_self : (a : ℕ) → is_zero (difference a a) ≡ true
difference_self zero = refl
difference_self (suc a) = difference_self a

same-text : (s t : List ℕ) → same_string s t ≡ true → text s ≡ text t
unfolding same_string
same-text [] [] h = refl
same-text [] (d ∷ t) h =
    let e : 0 ≡ d = difference-zero 0 d h in let z : (d == 0) ≡ true = ground arith in rw z
same-text (c ∷ s) [] h =
    let e : c ≡ 0 = difference-zero c 0 h in let z : (c == 0) ≡ true = ground arith in rw z
same-text (c ∷ s) (d ∷ t) h = elim (Bool-cases ((c == d) && not (c == 0))) [
  | inl e ↦
      let c_d : c ≡ d = ground arith in
      let nz : (c == 0) ≡ false = ground arith in
      let nz' : (d == 0) ≡ false = ground arith in
      rw (nz, nz') (rw (same-text s t (rw e at h)) (ap (λ x. x ∷ text t) c_d))
  | inr e ↦
      let c_d : c ≡ d = difference-zero c d (rw e at h) in
      let z : (c == 0) ≡ true = ground arith in
      let z' : (d == 0) ≡ true = ground arith in rw (z, z')
]

text-same : (s t : List ℕ) → text s ≡ text t → same_string s t ≡ true
unfolding same_string
text-same [] [] h = refl
text-same [] (d ∷ t) h = ground arith
text-same (c ∷ s) [] h = ground arith
text-same (c ∷ s) (d ∷ t) h = ground (arith, text-same s t, difference_self c)

-- strcmp of two buffers is 0 exactly when they hold the same bytes before the first 0.
pub strcmp-text : (s t : List ℕ) → (same_string s t ≡ true) ↔ (text s ≡ text t)
strcmp-text s t = (same-text s t, text-same s t)

-- strcpy into a buffer with room for the string and its 0 leaves a buffer of the same size that
-- holds the string.
pub strcpy-text :
    (dest s : List ℕ)
    → strlen s < length dest
    → (text (strcpy dest s) ≡ text s) × (length (strcpy dest s) ≡ length dest)
unfolding strlen strcpy
strcpy-text [] s h = absurd (omega arith)
strcpy-text (d ∷ dest) [] h = ground arith
strcpy-text (d ∷ dest) (c ∷ s) h = ground (arith, strcpy-text dest s)

-- the first place of a byte in the text, or that it is not there
abbrev pub Separated : List ℕ → ℕ → Option ℕ → Type 0
Separated s c none = (i : ℕ) → get_elem? (text s) i ≢ some c
Separated s c (some i) =
    (get_elem? (text s) i ≡ some c) × ((j : ℕ) → j < i → get_elem? (text s) j ≢ some c)

some_inj : {a b : ℕ} → some a ≡ some b → a ≡ b
some_inj e = cc

found : (x : ℕ) (s : List ℕ) (c : ℕ) → (x == 0) ≡ false → x ≡ c → Separated (x ∷ s) c (some 0)
found x s c nz e = rw nz (ap some e, λ j h. absurd (omega arith))

not_at_head :
    (x : ℕ) (xs : List ℕ) (c n : ℕ)
    → x ≢ c
    → ((i : ℕ) → i < n → get_elem? xs i ≢ some c)
    → (i : ℕ) → i < suc n
    → get_elem? (x ∷ xs) i ≢ some c
not_at_head x xs c n ne h zero p e = ne (some_inj e)
not_at_head x xs c n ne h (suc i) p e = h i (omega arith) e

nowhere :
    (x : ℕ) (xs : List ℕ) (c : ℕ)
    → x ≢ c
    → ((i : ℕ) → get_elem? xs i ≢ some c)
    → (i : ℕ) → get_elem? (x ∷ xs) i ≢ some c
nowhere x xs c ne h zero e = ne (some_inj e)
nowhere x xs c ne h (suc i) e = h i e

later :
    (x : ℕ) (s : List ℕ) (c : ℕ)
    → x ≢ c
    → (x == 0) ≡ false
    → (r : Option ℕ) → Separated s c r
    → Separated (x ∷ s) c (after r)
later x s c ne nz none sep = rw nz (nowhere x (text s) c ne sep)
later x s c ne nz (some i) (here, before) = rw nz (here, not_at_head x (text s) c i ne before)

-- separate returns the first place of the separator in the string, and -1 exactly when it does not
-- occur.
pub separate-Separated : (s : List ℕ) (c : ℕ) → Separated s c (separate s c)
unfolding separate
separate-Separated [] c = λ i e. cc
separate-Separated (x ∷ s) c = elim (Bool-cases (x == 0)) [
  | inl z ↦ rw z (λ i e. cc)
  | inr nz ↦ elim (Bool-cases (x == c)) [
    | inl e ↦ rw (nz, e) (found x s c nz (ground arith))
    | inr ne ↦
        rw (nz, ne) (later x s c (λ e. ground arith) nz (separate s c) (separate-Separated s c))
  ]
]
