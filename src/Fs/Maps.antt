-- ===== src/Fs/Maps.antt =====
-- What iarray_alloc and iarray_free of kernel/fs/fs.c do to the inode map, in memory and on the card.
use ucas_os.Common.{
  ℕ, ◌+◌, ◌-◌, ◌*◌, ◌/◌, ◌%◌, ◌≤◌, ◌<◌, ◌≡◌, ◌≢◌, refl, ap, ◌∙◌, Bool, true, false, arith, ◌==◌,
  upd, Bool-cases, inl, inr, Option, none, some,
}
use ucas_os.Fs.{
  Words, Card, Fs, bit, set_bit, clear_bit, first_clear, store_imap, count_up, count_down,
  inode_used, iarray_alloc, iarray_free, imap_addr, fs_base, u32, sub32,
}
use ucas_os.Fs.Bits.{
  FirstClear, first_clear-FirstClear, bit-set_bit_self, bit-set_bit_ne, bit-clear_bit_self,
  bit-clear_bit_ne,
}

-- the bit of a number in a map
abbrev pub used : Words → ℕ → Bool
used map b = bit (map (b / 32)) (b % 32)

pub split : (i j : ℕ) → j < 32 → ((i * 32 + j) / 32 ≡ i) × ((i * 32 + j) % 32 ≡ j)
split i j h = (omega arith, omega arith)

same_place : (a b : ℕ) → a / 32 ≡ b / 32 → a % 32 ≡ b % 32 → a ≡ b
same_place a b h k = omega arith

-- a map after one bit is set
module _ (map : Words) (i j : ℕ) (small : j < 32) where
  abbrev marked : Words
  marked = upd map i (set_bit (map i) j)

  pub marked_self : used marked (i * 32 + j) ≡ true
  marked_self =
      let (p, q) = split i j small in
      let e : (i == i) ≡ true = ground arith in rw (p, q, e) (bit-set_bit_self (map i) j)

  pub marked_ne : (b : ℕ) → b ≢ i * 32 + j → used marked b ≡ used map b
  marked_ne b ne = elim (Bool-cases (b / 32 == i)) [
    | inl e ↦
        let f : b / 32 ≡ i = ground arith in
        let other : b % 32 ≢ j = λ h. ne (omega arith) in
        rw e (rw f (bit-set_bit_ne (map i) j (b % 32) other))
    | inr e ↦ rw e
  ]

-- a map after one bit is cleared
module _ (map : Words) (b : ℕ) where
  abbrev cleared : Words
  cleared = upd map (b / 32) (clear_bit (map (b / 32)) (b % 32))

  pub cleared_self : used cleared b ≡ false
  cleared_self =
      let e : (b / 32 == b / 32) ≡ true = ground arith in
      rw e (bit-clear_bit_self (map (b / 32)) (b % 32))

  pub cleared_ne : (c : ℕ) → c ≢ b → used cleared c ≡ used map c
  cleared_ne c ne = elim (Bool-cases (c / 32 == b / 32)) [
    | inl e ↦
        let f : c / 32 ≡ b / 32 = ground arith in
        let other : c % 32 ≢ b % 32 = λ h. ne (same_place c b f h) in
        rw e (rw f (bit-clear_bit_ne (map (b / 32)) (b % 32) (c % 32) other))
    | inr e ↦ rw e
  ]

-- Of the numbers from `lo` up to `hi`, `b` is free in the map, all below it are in use, and `map'` is
-- the map with `b` in use.
pub record Takes (map map' : Words) (lo hi b : ℕ) : Type 0 where
  pub least : lo ≤ b
  pub small : b < hi
  pub free : used map b ≡ false
  pub below : (c : ℕ) → lo ≤ c → c < b → used map c ≡ true
  pub taken : used map' b ≡ true
  pub others : (c : ℕ) → c ≢ b → used map' c ≡ used map c

pub take_first :
    (map : Words) (i j : ℕ)
    → FirstClear 128 0 map (some (i, j))
    → Takes map (upd map i (set_bit (map i) j)) 0 4096 (i * 32 + j)
take_first map i j (p, q, l, clear, words, bits) =
    let (d, m) = split i j l in
    record {
      least = omega arith;
      small = omega arith;
      free = rw (d, m) clear;
      below = λ c u v. elim (Bool-cases (c / 32 == i)) [
        | inl e ↦ let f : c / 32 ≡ i = ground arith in rw f (bits (c % 32) (omega arith))
        | inr e ↦
            let f : c / 32 ≢ i = ground arith in
            words (c / 32) (c % 32) (omega arith) (omega arith) (omega arith)
      ];
      taken = marked_self map i j l;
      others = marked_ne map i j l;
    }

pub take_none : (map : Words) → FirstClear 128 0 map none → (b : ℕ) → b < 4096 → used map b ≡ true
take_none map h b p = h (b / 32) (b % 32) (omega arith) (omega arith) (omega arith)

module _ {D : Type 0} (card : Card D) where
  -- the inode map and the super block in memory are those of the card
  abbrev pub Stored : Fs D → Type 0
  Stored f =
      ((i : ℕ) → i < 128 → card.sdread imap_addr f.disk i ≡ f.imap i)
      × ((i : ℕ) → i < 128 → card.sdread fs_base f.disk i ≡ f.super_block i)

  pub store_imap-Stored : (map s : Words) (f : Fs D) → Stored (store_imap card map s f)
  store_imap-Stored map s f =
      let apart : imap_addr ≢ fs_base = ground arith in
      (
        (λ i h.
            ap (λ (w : Words). w i)
              (card.sdread-sdwrite_ne imap_addr fs_base s (card.sdwrite imap_addr map f.disk) refl
                refl apart)
            ∙ card.sdread-sdwrite_self imap_addr map f.disk i h),
        λ i h. card.sdread-sdwrite_self fs_base s (card.sdwrite imap_addr map f.disk) i h,
      )

  abbrev pub Allocated : Fs D → Option ℕ × Fs D → Type 0
  Allocated f (none, g) = (g ≡ f) × ((b : ℕ) → b < 4096 → used f.imap b ≡ true)
  Allocated f (some ino, g) =
      Takes f.imap g.imap 0 4096 ino
      × (g.super_block inode_used ≡ u32 (f.super_block inode_used + 1))
      × Stored g

  -- iarray_alloc returns the least inode number that is free, marks it and no other, counts it in
  -- the super block, and leaves the map and the super block on the card as in memory; it returns
  -- -1 and changes nothing only when all 4096 are in use.
  pub iarray_alloc-Allocated : (f : Fs D) → Allocated f (iarray_alloc card f)
  unfolding iarray_alloc
  iarray_alloc-Allocated f =
      by_case (first_clear 128 0 f.imap) (first_clear-FirstClear 128 0 f.imap)
    where
      by_case :
          (r : Option (ℕ × ℕ))
          → FirstClear 128 0 f.imap r
          → Allocated f (elim r [
            | none ↦ (none, f)
            | some (i, j) ↦ (
              some (i * 32 + j),
              store_imap card
                  (upd f.imap i (set_bit (f.imap i) j))
                  (count_up inode_used f.super_block)
                  f,
            )
          ])
      by_case none h = (refl, take_none f.imap h)
      by_case (some (i, j)) h = (
        take_first f.imap i j h,
        refl,
        store_imap-Stored (upd f.imap i (set_bit (f.imap i) j)) (count_up inode_used f.super_block)
            f,
      )

  -- iarray_free clears the bit of the inode and no other, takes 1 from the count in the super
  -- block, and leaves the map and the super block on the card as in memory.
  pub iarray_free-Freed :
      (f : Fs D) (ino : ℕ)
      → (used (iarray_free card ino f).imap ino ≡ false)
        × ((b : ℕ) → b ≢ ino → used (iarray_free card ino f).imap b ≡ used f.imap b)
        × ((iarray_free card ino f).super_block inode_used ≡ sub32 (f.super_block inode_used) 1)
        × Stored (iarray_free card ino f)
  unfolding iarray_free
  iarray_free-Freed f ino =
      let e : ino - ino / 32 * 32 ≡ ino % 32 = omega arith in
      rw e (
        cleared_self f.imap ino,
        cleared_ne f.imap ino,
        refl,
        store_imap-Stored (upd f.imap (ino / 32) (clear_bit (f.imap (ino / 32)) (ino % 32)))
            (count_down inode_used f.super_block) f,
      )
