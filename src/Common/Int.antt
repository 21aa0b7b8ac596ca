-- ===== src/Common/Int.antt =====
-- Signed integers over the native numbers: the C `int` where the sign matters.
use ucas_os.Common.{ℕ, zero, suc, ◌≡◌, Bool, true, false, arith}

-- `negsuc n` is -(n + 1).
pub data ℤ : Type 0 where
  pos : ℕ → ℤ
  negsuc : ℕ → ℤ

abbrev pub pos_part : ℤ → ℕ
pos_part (pos n) = n
pos_part (negsuc n) = 0

abbrev pub neg_part : ℤ → ℕ
neg_part (pos n) = 0
neg_part (negsuc n) = suc n

-- ++x
abbrev pub suc_ℤ : ℤ → ℤ
suc_ℤ (pos n) = pos (suc n)
suc_ℤ (negsuc zero) = pos 0
suc_ℤ (negsuc (suc n)) = negsuc n

-- --x
abbrev pub pred_ℤ : ℤ → ℤ
pred_ℤ (pos zero) = negsuc 0
pred_ℤ (pos (suc n)) = pos n
pred_ℤ (negsuc n) = negsuc (suc n)

abbrev pub is_neg : ℤ → Bool
is_neg (pos n) = false
is_neg (negsuc n) = true

-- x > 0
abbrev pub is_pos : ℤ → Bool
is_pos (pos zero) = false
is_pos (pos (suc n)) = true
is_pos (negsuc n) = false

pub pred_ℤ-suc_ℤ : (x : ℤ) → pred_ℤ (suc_ℤ x) ≡ x
pred_ℤ-suc_ℤ (pos n) = ground arith
pred_ℤ-suc_ℤ (negsuc zero) = ground arith
pred_ℤ-suc_ℤ (negsuc (suc n)) = ground arith
