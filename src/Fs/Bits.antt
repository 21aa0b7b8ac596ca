-- ===== src/Fs/Bits.antt =====
-- The bit operations of kernel/fs/fs.c on the words of a map, and the search for a clear bit.
use ucas_os.Common.{
  ℕ, zero, suc, ◌+◌, ◌*◌, ◌/◌, ◌%◌, ◌≤◌, ◌<◌, ◌≡◌, ◌≢◌, refl, ap, true, false, arith, ◌==◌,
  Bool-cases, inl, inr, Option, none, some,
}
use ucas_os.Fs.{Words, bit, set_bit, clear_bit, low_ones, first_clear}

pub bit-set_bit_self : (t j : ℕ) → bit (set_bit t j) j ≡ true
bit-set_bit_self t zero = ground arith
bit-set_bit_self t (suc j) =
    let e : (t % 2 + 2 * set_bit (t / 2) j) / 2 ≡ set_bit (t / 2) j = omega arith in
    rw e (bit-set_bit_self (t / 2) j)

pub bit-set_bit_ne : (t j i : ℕ) → i ≢ j → bit (set_bit t j) i ≡ bit t i
bit-set_bit_ne t zero zero ne = absurd (ne refl)
bit-set_bit_ne t zero (suc i) ne = let e : (t / 2 * 2 + 1) / 2 ≡ t / 2 = omega arith in rw e
bit-set_bit_ne t (suc j) zero ne =
    let e : (t % 2 + 2 * set_bit (t / 2) j) % 2 ≡ t % 2 = omega arith in rw e
bit-set_bit_ne t (suc j) (suc i) ne =
    let e : (t % 2 + 2 * set_bit (t / 2) j) / 2 ≡ set_bit (t / 2) j = omega arith in
    rw e (bit-set_bit_ne (t / 2) j i (λ h. ne (ap suc h)))

pub bit-clear_bit_self : (t j : ℕ) → bit (clear_bit t j) j ≡ false
bit-clear_bit_self t zero = ground arith
bit-clear_bit_self t (suc j) =
    let e : (t % 2 + 2 * clear_bit (t / 2) j) / 2 ≡ clear_bit (t / 2) j = omega arith in
    rw e (bit-clear_bit_self (t / 2) j)

pub bit-clear_bit_ne : (t j i : ℕ) → i ≢ j → bit (clear_bit t j) i ≡ bit t i
bit-clear_bit_ne t zero zero ne = absurd (ne refl)
bit-clear_bit_ne t zero (suc i) ne = let e : (t / 2 * 2) / 2 ≡ t / 2 = omega arith in rw e
bit-clear_bit_ne t (suc j) zero ne =
    let e : (t % 2 + 2 * clear_bit (t / 2) j) % 2 ≡ t % 2 = omega arith in rw e
bit-clear_bit_ne t (suc j) (suc i) ne =
    let e : (t % 2 + 2 * clear_bit (t / 2) j) / 2 ≡ clear_bit (t / 2) j = omega arith in
    rw e (bit-clear_bit_ne (t / 2) j i (λ h. ne (ap suc h)))

pub clear_bit-set_bit : (t j : ℕ) → bit t j ≡ false → clear_bit (set_bit t j) j ≡ t
clear_bit-set_bit t zero h = ground arith
clear_bit-set_bit t (suc j) h =
    let e : (t % 2 + 2 * set_bit (t / 2) j) / 2 ≡ set_bit (t / 2) j = omega arith in
    let f : (t % 2 + 2 * set_bit (t / 2) j) % 2 ≡ t % 2 = omega arith in
    rw (e, f, clear_bit-set_bit (t / 2) j h) (omega arith)

pub low_ones-le : (n t : ℕ) → low_ones n t ≤ n
unfolding low_ones
low_ones-le zero t = omega arith
low_ones-le (suc n) t = ground (arith, low_ones-le n (t / 2))

pub low_ones-before : (n t i : ℕ) → i < low_ones n t → bit t i ≡ true
unfolding low_ones
low_ones-before zero t i h = absurd (omega arith)
low_ones-before (suc n) t zero h = ground arith
low_ones-before (suc n) t (suc i) h = ground (arith, low_ones-before n (t / 2) i)

pub low_ones-at : (n t : ℕ) → low_ones n t < n → bit t (low_ones n t) ≡ false
unfolding low_ones
low_ones-at zero t h = absurd (omega arith)
low_ones-at (suc n) t h = elim (Bool-cases (t % 2 == 1)) [
  | inl e ↦ rw e (low_ones-at n (t / 2) (ground (arith, h)))
  | inr e ↦ rw e e
]

-- the words before `m` are full, and so are the bits before the place, which is clear
abbrev pub FirstClear : ℕ → ℕ → Words → Option (ℕ × ℕ) → Type 0
FirstClear n i map none = (b j : ℕ) → i ≤ b → b < i + n → j < 32 → bit (map b) j ≡ true
FirstClear n i map (some (b, j)) =
    (i ≤ b)
    × (b < i + n)
    × (j < 32)
    × (bit (map b) j ≡ false)
    × ((c l : ℕ) → i ≤ c → c < b → l < 32 → bit (map c) l ≡ true)
    × ((l : ℕ) → l < j → bit (map b) l ≡ true)

full_word : (t : ℕ) → (low_ones 32 t == 32) ≡ true → (j : ℕ) → j < 32 → bit t j ≡ true
full_word t e j h = let f : low_ones 32 t ≡ 32 = ground arith in low_ones-before 32 t j (rw f h)

on :
    (n i : ℕ) (map : Words) (r : Option (ℕ × ℕ))
    → ((j : ℕ) → j < 32 → bit (map i) j ≡ true)
    → FirstClear n (suc i) map r
    → FirstClear (suc n) i map r
on n i map none full h = λ b j p q l. elim (Bool-cases (b == i)) [
  | inl e ↦ let f : b ≡ i = ground arith in rw f (full j l)
  | inr e ↦ h b j (ground arith) (ground arith) l
]
on n i map (some (b, j)) full (p, q, l, clear, words, bits) = (
  omega arith,
  omega arith,
  l,
  clear,
  (λ c m u v w. elim (Bool-cases (c == i)) [
    | inl e ↦ let f : c ≡ i = ground arith in rw f (full m w)
    | inr e ↦ words c m (ground arith) v w
  ]),
  bits,
)

pub first_clear-FirstClear : (n i : ℕ) (map : Words) → FirstClear n i map (first_clear n i map)
unfolding first_clear
first_clear-FirstClear zero i map = λ b j p q l. absurd (omega arith)
first_clear-FirstClear (suc n) i map = elim (Bool-cases (low_ones 32 (map i) == 32)) [
  | inl e ↦ rw e (
      on n i map (first_clear n (suc i) map) (full_word (map i) e)
        (first_clear-FirstClear n (suc i) map))
  | inr e ↦
      let lt : low_ones 32 (map i) < 32 = ground (arith, low_ones-le 32 (map i)) in
      rw e (
        omega arith,
        omega arith,
        lt,
        low_ones-at 32 (map i) lt,
        (λ c l p q. absurd (omega arith)),
        low_ones-before 32 (map i),
      )
]
