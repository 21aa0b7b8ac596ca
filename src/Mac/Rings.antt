-- ===== src/Mac/Rings.antt =====
-- The descriptor rings that send_desc_init and recv_desc_init of drivers/mac.c make.
use ucas_os.Common.{
  ℕ, zero, suc, ◌+◌, ◌*◌, ◌%◌, ◌<◌, ◌≡◌, refl, arith, leb, ltb, ◌&&◌, ◌==◌, if◌then◌else◌, upd, ◌^◌,
  ◌∙◌, ap, Bool, true, false, Bool-cases, inl, inr,
}
use ucas_os.Mac.{
  Desc, Addresses, phy_addr, desc_size, link_loop, send_desc_init, recv_desc_init, tbuffer_size,
  rbuffer_size,
}

-- the descriptor at `i` of a ring of 64; bit 25 of des1 ends the ring
pub record IsRing (flags buffer size ring : ℕ) (d : ℕ → Desc) : Type 0 where
  pub idle : (i : ℕ) → i < 64 → (d i).des0 ≡ 0
  pub flag : (i : ℕ) → i < 64 → (d i).des1 ≡ (if i == 63 then flags + 2 ^ 25 else flags)
  pub buffer_at : (i : ℕ) → i < 64 → (d i).des2 ≡ phy_addr (buffer + i * size)
  pub next : (i : ℕ) → i < 64 → (d i).des3 ≡ phy_addr (ring + suc i % 64 * desc_size)

-- the descriptor at `c`, before the last
abbrev linked : ℕ → ℕ → ℕ → ℕ → ℕ → Desc
linked flags buffer size ring c = record {
  des0 = 0;
  des1 = flags;
  des2 = phy_addr (buffer + c * size);
  des3 = phy_addr (ring + suc c * desc_size);
}

link_loop_lem :
    (n i flags buffer size ring : ℕ) (d : ℕ → Desc) (c : ℕ)
    → link_loop n i flags buffer size ring d c
      ≡ (if leb i c && ltb c (i + n) then linked flags buffer size ring c else d c)
unfolding link_loop
link_loop_lem zero i flags buffer size ring d c = split (leb i c && ltb c (i + 0)) (ground arith)
  where
    split : (b : Bool) → b ≡ false → d c ≡ (if b then linked flags buffer size ring c else d c)
    split true e = cc
    split false e = refl
link_loop_lem (suc n) i flags buffer size ring d c =
    link_loop_lem n (suc i) flags buffer size ring (upd d i (linked flags buffer size ring i)) c
    ∙ (elim (Bool-cases (c == i)) [
      | inl e ↦
          let e' : c ≡ i = ground arith in
          let skip : (leb (suc i) c && ltb c (suc i + n)) ≡ false = ground arith in
          let here : (leb i c && ltb c (i + suc n)) ≡ true = ground arith in
          rw (skip, here, e) (rw e')
      | inr e ↦
          let same : (leb (suc i) c && ltb c (suc i + n)) ≡ (leb i c && ltb c (i + suc n)) =
            ground arith in
          rw (same, e)
    ])

-- the whole ring
abbrev chained : ℕ → ℕ → ℕ → ℕ → (ℕ → Desc) → ℕ → Desc
chained flags buffer size ring d = upd (link_loop 63 0 flags buffer size ring d) 63 (record {
  des0 = 0;
  des1 = flags + 2 ^ 25;
  des2 = phy_addr (buffer + 63 * size);
  des3 = phy_addr ring;
})

chained-before :
    (flags buffer size ring : ℕ) (d : ℕ → Desc) (i : ℕ)
    → i < 64
    → (i == 63) ≡ false
    → chained flags buffer size ring d i ≡ linked flags buffer size ring i
chained-before flags buffer size ring d i lt e =
    let here : (leb 0 i && ltb i (0 + 63)) ≡ true = ground arith in
    rw e (link_loop_lem 63 0 flags buffer size ring d i ∙ (rw here))

chained-IsRing :
    (flags buffer size ring : ℕ) (d : ℕ → Desc)
    → IsRing flags buffer size ring (chained flags buffer size ring d)
chained-IsRing flags buffer size ring d = record {
  idle = λ i lt. elim (Bool-cases (i == 63)) [
    | inl e ↦ rw e
    | inr e ↦ ap (λ (x : Desc). x.des0) (chained-before flags buffer size ring d i lt e)
  ];
  flag = λ i lt. elim (Bool-cases (i == 63)) [
    | inl e ↦ rw e
    | inr e ↦ ap (λ (x : Desc). x.des1) (chained-before flags buffer size ring d i lt e) ∙ (rw e)
  ];
  buffer_at = λ i lt. elim (Bool-cases (i == 63)) [
    | inl e ↦ let e' : i ≡ 63 = ground arith in rw e (rw e')
    | inr e ↦ ap (λ (x : Desc). x.des2) (chained-before flags buffer size ring d i lt e)
  ];
  next = λ i lt. elim (Bool-cases (i == 63)) [
    | inl e ↦ let e' : suc i % 64 ≡ 0 = ground arith in rw (e, e') (ap phy_addr (omega arith))
    | inr e ↦
        let e' : suc i % 64 ≡ suc i = ground arith in
        rw e' (ap (λ (x : Desc). x.des3) (chained-before flags buffer size ring d i lt e))
  ];
}

-- After send_desc_init and recv_desc_init the 64 descriptors form a ring: each belongs to the
-- processor, has its own buffer and leads to the next one, the last to the first, and only the
-- last has the bit that ends the ring.
pub desc_init-IsRing :
    (at : Addresses) (t r : ℕ → Desc)
    → IsRing 0x61000400 at.tbuffer tbuffer_size at.tdesc (send_desc_init at t)
      × IsRing 0x010007ff at.rbuffer rbuffer_size at.rdesc (recv_desc_init at r)
unfolding send_desc_init recv_desc_init
desc_init-IsRing at t r = (
  chained-IsRing 0x61000400 at.tbuffer tbuffer_size at.tdesc t,
  chained-IsRing 0x010007ff at.rbuffer rbuffer_size at.rdesc r,
)
