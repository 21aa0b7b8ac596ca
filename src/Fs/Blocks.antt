-- ===== src/Fs/Blocks.antt =====
-- What darray_alloc of kernel/fs/fs.c does to the sector map on the card, of which the memory holds
-- one part of the 256.
use ucas_os.Common.{
  ℕ, zero, suc, ◌+◌, ◌-◌, ◌*◌, ◌/◌, ◌%◌, ◌≤◌, ◌<◌, ◌≡◌, ◌≢◌, refl, sym, ap, ◌⊎◌, ◌∙◌, Bool, true,
  false, arith, ◌==◌, upd, Bool-cases, inl, inr, Option, none, some,
}
use ucas_os.Fs.{
  Words, Card, Fs, bit, set_bit, first_clear, store_smap, load_smap, count_up, data_used,
  darray_loop, darray_alloc, smap_addr, fs_base, sector_size,
}
use ucas_os.Fs.Bits.{FirstClear, first_clear-FirstClear}
use ucas_os.Fs.Maps.{used, Takes, take_first, take_none}

used_same :
    (m m' : Words) (b : ℕ) → ((i : ℕ) → i < 128 → m i ≡ m' i) → b < 4096 → used m b ≡ used m' b
used_same m m' b same h = ap (λ (w : ℕ). bit w (b % 32)) (same (b / 32) (omega arith))

lt_or_ge : (a b : ℕ) → (a < b) ⊎ (b ≤ a)
lt_or_ge a b = omega arith

module _ {D : Type 0} (card : Card D) where
  -- part `si` of the map on the card, and the bit of a block
  abbrev pub part : D → ℕ → Words
  part d si = card.sdread (smap_addr + si * sector_size) d

  abbrev pub block_used : D → ℕ → Bool
  block_used d b = used (part d (b / 4096)) (b % 4096)

  -- the part in memory is that of the card
  abbrev pub InStep : Fs D → Type 0
  InStep f = (i : ℕ) → i < 128 → part f.disk f.smap_index i ≡ f.smap i

  -- The search goes from the part in memory to the end of the map.
  abbrev pub BlockAllocated : Fs D → Option ℕ × Fs D → Type 0
  BlockAllocated f (none, g) =
      ((b : ℕ) → f.smap_index * 4096 ≤ b → b < 1048576 → block_used f.disk b ≡ true)
      × (g.disk ≡ f.disk)
      × (g.fd_array ≡ f.fd_array)
  BlockAllocated f (some b, g) =
      (f.smap_index * 4096 ≤ b)
      × (b < 1048576)
      × (block_used f.disk b ≡ false)
      × ((c : ℕ) → f.smap_index * 4096 ≤ c → c < b → block_used f.disk c ≡ true)
      × (block_used g.disk b ≡ true)
      × ((c : ℕ) → c < 1048576 → c ≢ b → block_used g.disk c ≡ block_used f.disk c)
      × InStep g
      × (g.fd_array ≡ f.fd_array)

  -- the parts of the map after the write of one of them, and of the super block
  module _ (map s : Words) (f : Fs D) (here : f.smap_index < 256) where
    stored : D
    stored = (store_smap card map s f).disk

    stored_self : (i : ℕ) → i < 128 → part stored f.smap_index i ≡ map i
    unfolding stored
    stored_self i h =
        let sm : ℕ = smap_addr + f.smap_index * sector_size in
        ap (λ (w : Words). w i)
          (card.sdread-sdwrite_ne sm fs_base s (card.sdwrite sm map f.disk) (omega arith) refl
            (omega arith))
        ∙ card.sdread-sdwrite_self sm map f.disk i h

    stored_ne : (si : ℕ) → si ≢ f.smap_index → part stored si ≡ part f.disk si
    unfolding stored
    stored_ne si ne =
        let sm : ℕ = smap_addr + f.smap_index * sector_size in
        let other : ℕ = smap_addr + si * sector_size in
        card.sdread-sdwrite_ne other fs_base s (card.sdwrite sm map f.disk) (omega arith) refl
          (omega arith)
        ∙ card.sdread-sdwrite_ne other sm map f.disk (omega arith) (omega arith) (omega arith)

  block_of :
      (d : D) (m : Words) (si b : ℕ)
      → ((i : ℕ) → i < 128 → part d si i ≡ m i)
      → b / 4096 ≡ si
      → block_used d b ≡ used m (b % 4096)
  block_of d m si b same e = rw e (used_same (part d si) m (b % 4096) same (omega arith))

  -- a clear bit in the part in memory
  found :
      (f : Fs D) (i j : ℕ)
      → f.smap_index < 256
      → InStep f
      → FirstClear 128 0 f.smap (some (i, j))
      → BlockAllocated f (
        some (f.smap_index * 512 * 8 + i * 32 + j),
        store_smap card (upd f.smap i (set_bit (f.smap i) j)) (count_up data_used f.super_block) f,
      )
  unfolding stored
  found f i j here step first =
      let map : Words = upd f.smap i (set_bit (f.smap i) j) in
      let s : Words = count_up data_used f.super_block in
      let t : Takes f.smap map 0 4096 (i * 32 + j) = take_first f.smap i j first in
      let l : ℕ = i * 32 + j in
      let small : l < 4096 = t.small in
      let b : ℕ = f.smap_index * 512 * 8 + i * 32 + j in
      let q : b / 4096 ≡ f.smap_index = omega arith in
      let r : b % 4096 ≡ l = omega arith in
      (
        omega arith,
        omega arith,
        block_of f.disk f.smap f.smap_index b step q ∙ (ap (used f.smap) r ∙ t.free),
        (λ c u v.
            let e : c / 4096 ≡ f.smap_index = omega arith in
            block_of f.disk f.smap f.smap_index c step e
            ∙ t.below (c % 4096) (omega arith) (omega arith)),
        block_of (stored map s f here) map f.smap_index b (stored_self map s f here) q
            ∙ (ap (used map) r ∙ t.taken),
        (λ c u ne. elim (Bool-cases (c / 4096 == f.smap_index)) [
          | inl h ↦
              let e : c / 4096 ≡ f.smap_index = ground arith in
              block_of (stored map s f here) map f.smap_index c (stored_self map s f here) e
              ∙ (t.others (c % 4096) (λ k. ne (omega arith))
                  ∙ sym (block_of f.disk f.smap f.smap_index c step e))
          | inr h ↦
              let e : c / 4096 ≢ f.smap_index = ground arith in
              ap (λ (w : Words). used w (c % 4096)) (stored_ne map s f here (c / 4096) e)
        ]),
        stored_self map s f here,
        refl,
      )

  -- no clear bit in the part in memory: the search goes on in the next
  full :
      (f : Fs D)
      → f.smap_index < 256
      → InStep f
      → FirstClear 128 0 f.smap none
      → (c : ℕ) → f.smap_index * 4096 ≤ c
      → c < suc f.smap_index * 4096
      → block_used f.disk c ≡ true
  full f here step none_clear c u v =
      let e : c / 4096 ≡ f.smap_index = omega arith in
      block_of f.disk f.smap f.smap_index c step e
      ∙ take_none f.smap none_clear (c % 4096) (omega arith)

  on :
      (f : Fs D) (r : Option ℕ × Fs D)
      → ((c : ℕ)
          → f.smap_index * 4096 ≤ c
          → c < suc f.smap_index * 4096
          → block_used f.disk c ≡ true)
      → BlockAllocated (load_smap card (suc f.smap_index) f) r
      → BlockAllocated f r
  on f (none, g) all (rest, disk, fds) = (
    (λ c u v. elim (lt_or_ge c (suc f.smap_index * 4096)) [
      | inl h ↦ all c u h
      | inr h ↦ rest c h v
    ]),
    disk,
    fds,
  )
  on f (some b, g) all (least, small, free, below, taken, others, step, fds) = (
    omega arith,
    small,
    free,
    (λ c u v. elim (lt_or_ge c (suc f.smap_index * 4096)) [
      | inl h ↦ all c u h
      | inr h ↦ below c h v
    ]),
    taken,
    others,
    step,
    fds,
  )

  loop-BlockAllocated :
      (n : ℕ) (f : Fs D)
      → n + f.smap_index ≡ 256
      → InStep f
      → BlockAllocated f (darray_loop card n f)
  unfolding darray_loop
  loop-BlockAllocated zero f e step = ((λ b u v. absurd (omega arith)), refl, refl)
  loop-BlockAllocated (suc n) f e step =
      by_case (first_clear 128 0 f.smap) (first_clear-FirstClear 128 0 f.smap)
        (loop-BlockAllocated n (load_smap card (suc f.smap_index) f) (omega arith) (λ i h. refl))
    where
      by_case :
          (r : Option (ℕ × ℕ))
          → FirstClear 128 0 f.smap r
          → BlockAllocated
              (load_smap card (suc f.smap_index) f)
              (darray_loop card n (load_smap card (suc f.smap_index) f))
          → BlockAllocated f (elim r [
            | none ↦ darray_loop card n (load_smap card (suc f.smap_index) f)
            | some (i, j) ↦ (
              some (f.smap_index * 512 * 8 + i * 32 + j),
              store_smap card
                  (upd f.smap i (set_bit (f.smap i) j))
                  (count_up data_used f.super_block)
                  f,
            )
          ])
      by_case none h rest =
          on f (darray_loop card n (load_smap card (suc f.smap_index) f))
            (full f (omega arith) step h) rest
      by_case (some (i, j)) h rest = found f i j (omega arith) step h

  -- When the part of the sector map in memory is that of the card, darray_alloc returns the least
  -- free block from that part on, marks it and no other in the map on the card, and leaves memory
  -- and card in step; it returns -1 only when every block from there on is in use, and then the
  -- card is as it was.
  pub darray_alloc-BlockAllocated :
      (f : Fs D) → f.smap_index ≤ 256 → InStep f → BlockAllocated f (darray_alloc card f)
  unfolding darray_alloc
  darray_alloc-BlockAllocated f le step =
      loop-BlockAllocated (256 - f.smap_index) f (omega arith) step
