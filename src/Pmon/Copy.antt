-- ===== src/Pmon/Copy.antt =====
-- memcopy of arch/mips/pmon/common.c, for areas that may overlap.
use ucas_os.Common.{
  ℕ, zero, suc, ◌+◌, ◌-◌, ◌≤◌, ◌≡◌, arith, Bool-cases, inl, inr, ltb, leb, ◌&&◌, if◌then◌else◌, upd,
}
use ucas_os.Pmon.{Bytes, copy_up, copy_down, memcopy}

copy_up_lem :
    (n t f : ℕ) (m : Bytes) (c : ℕ)
    → t ≤ f
    → copy_up n t f m c ≡ (if leb t c && ltb c (t + n) then m (f + (c - t)) else m c)
unfolding copy_up
copy_up_lem zero t f m c h = ground arith
copy_up_lem (suc n) t f m c h = ground (arith, copy_up_lem n (suc t) (suc f) (upd m t (m f)) c)

copy_down_lem :
    (n t f : ℕ) (m : Bytes) (c : ℕ)
    → f ≤ t
    → copy_down n (t + n) (f + n) m c ≡ (if leb t c && ltb c (t + n) then m (f + (c - t)) else m c)
unfolding copy_down
copy_down_lem zero t f m c h = ground arith
copy_down_lem (suc n) t f m c h =
    let e : (t + suc n) - 1 ≡ t + n = omega arith in
    let e' : (f + suc n) - 1 ≡ f + n = omega arith in
    rw (e, e') (ground (arith, copy_down_lem n t f (upd m (t + n) (m (f + n))) c))

-- Memcopy leaves at s1 the n bytes that were at s2 before, also where the two areas overlap, and
-- all other memory as it was.
pub memcopy-Bytes :
    (s1 s2 n : ℕ) (m : Bytes) (c : ℕ)
    → memcopy s1 s2 n m c ≡ (if leb s1 c && ltb c (s1 + n) then m (s2 + (c - s1)) else m c)
unfolding memcopy
memcopy-Bytes s1 s2 n m c = elim (Bool-cases (ltb s2 s1)) [
  | inl e ↦ rw e (copy_down_lem n s1 s2 m c (ground arith))
  | inr e ↦ rw e (copy_up_lem n s1 s2 m c (ground arith))
]
