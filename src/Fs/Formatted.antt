-- ===== src/Fs/Formatted.antt =====
-- mkfs and then mount of kernel/fs/fs.c: a file system in which only the root is in use.
use ucas_os.Common.{
  ℕ, zero, suc, ◌+◌, ◌*◌, ◌/◌, ◌%◌, ◌≤◌, ◌<◌, ◌≡◌, ◌≢◌, ◌⊎◌, refl, ap, ◌∙◌, false, arith, ◌==◌,
  Bool-cases, inl, inr,
}
use ucas_os.Fs.{
  Words, Card, Fs, bit, sector_size, fs_base, imap_addr, smap_addr, iarray_addr, darray_addr,
}
use ucas_os.Fs.Layout.{entry_valid, max_dir_item_num}
use ucas_os.Fs.Mount.{
  magic_at, magic_number, one_word, new_super_block, root_inode, root_dir, clear_smap, mkfs, mount,
}
use ucas_os.Fs.Maps.{used, Stored}
use ucas_os.Fs.Entries.{entry_valid-root_dir}
use ucas_os.Fs.Blocks.{block_used, InStep, part}

bit_zero : (j : ℕ) → bit 0 j ≡ false
bit_zero zero = refl
bit_zero (suc j) = bit_zero j

bit_one : (j : ℕ) → bit 1 j ≡ (j == 0)
bit_one zero = refl
bit_one (suc j) = bit_zero j ∙ ground arith

-- a map that holds its first bit only, and one that holds none
used_first :
    (m : Words) (b : ℕ) → ((i : ℕ) → i < 128 → m i ≡ one_word 1 i) → b < 4096 → used m b ≡ (b == 0)
used_first m b same lt =
    let e = same (b / 32) (omega arith) in
    elim (Bool-cases (b / 32 == 0)) [
      | inl h ↦
          let one : m (b / 32) ≡ 1 = ground (arith, e) in
          let low : b % 32 ≡ b = ground arith in
          rw one (bit_one (b % 32) ∙ ap (λ (j : ℕ). j == 0) low)
      | inr h ↦
          let none_set : m (b / 32) ≡ 0 = ground (arith, e) in
          let far : (b == 0) ≡ false = ground arith in rw (none_set, far) (bit_zero (b % 32))
    ]

used_none : (m : Words) (b : ℕ) → ((i : ℕ) → i < 128 → m i ≡ 0) → b < 4096 → used m b ≡ false
used_none m b same lt = rw (same (b / 32) (omega arith)) (bit_zero (b % 32))

zero_word : (i : ℕ) → one_word 0 i ≡ 0
zero_word i = ground arith

module _ {D : Type 0} (card : Card D) where
  -- the sectors outside of those that clear_smap writes, and those inside
  clear_other :
      (n addr a : ℕ) (d : D)
      → addr % 512 ≡ 0
      → a % 512 ≡ 0
      → (a < addr) ⊎ (addr + n * 512 ≤ a)
      → card.sdread a (clear_smap card n addr d) ≡ card.sdread a d
  unfolding clear_smap
  clear_other zero addr a d p q out = refl
  clear_other (suc n) addr a d p q out =
      clear_other n (addr + sector_size) a (card.sdwrite addr (one_word 0) d) (omega arith) q
        (omega arith)
      ∙ card.sdread-sdwrite_ne a addr (one_word 0) d q p (omega arith)

  clear_inside :
      (n addr a i : ℕ) (d : D)
      → addr % 512 ≡ 0
      → a % 512 ≡ 0
      → addr ≤ a
      → a < addr + n * 512
      → i < 128
      → card.sdread a (clear_smap card n addr d) i ≡ 0
  unfolding clear_smap
  clear_inside zero addr a i d p q u v lt = absurd (omega arith)
  clear_inside (suc n) addr a i d p q u v lt = elim (Bool-cases (a == addr)) [
    | inl e ↦
        let a_addr : a ≡ addr = ground arith in
        ap (λ (w : Words). w i)
          (clear_other n (addr + sector_size) a (card.sdwrite addr (one_word 0) d) (omega arith) q
            (omega arith))
        ∙ (ap (λ (b : ℕ). card.sdread b (card.sdwrite addr (one_word 0) d) i) a_addr
            ∙ (card.sdread-sdwrite_self addr (one_word 0) d i lt ∙ zero_word i))
    | inr e ↦
        let ne : a ≢ addr = ground arith in
        clear_inside n (addr + sector_size) a i (card.sdwrite addr (one_word 0) d) (omega arith) q
          (omega arith) (omega arith) lt
  ]

  -- the sectors of a new file system
  module _ (s inode dir : Words) (d : D) where
    made : D
    made = mkfs card s inode dir d

    -- what is on the card before the two sectors of the root, and before the rest of the map
    mapped : D
    mapped = card.sdwrite imap_addr (one_word 1) (card.sdwrite fs_base (new_super_block s) d)

    cleared : D
    unfolding mapped
    cleared =
        clear_smap card 255 (smap_addr + sector_size) (card.sdwrite smap_addr (one_word 1) mapped)

    made_past : (a : ℕ) → a % 512 ≡ 0 → a < iarray_addr → card.sdread a made ≡ card.sdread a cleared
    unfolding made mkfs cleared mapped
    made_past a p lt =
        card.sdread-sdwrite_ne a darray_addr (root_dir dir)
          (card.sdwrite iarray_addr (root_inode inode) cleared) p refl (ground arith)
        ∙ card.sdread-sdwrite_ne a iarray_addr (root_inode inode) cleared p refl (ground arith)

    made_other : (a : ℕ) → a % 512 ≡ 0 → a < smap_addr → card.sdread a made ≡ card.sdread a mapped
    unfolding cleared
    made_other a p lt =
        made_past a p (ground arith)
        ∙ (clear_other 255 (smap_addr + sector_size) a (card.sdwrite smap_addr (one_word 1) mapped)
              refl p (inl (ground arith))
            ∙ card.sdread-sdwrite_ne a smap_addr (one_word 1) mapped p refl (ground arith))

    made_imap : (i : ℕ) → i < 128 → card.sdread imap_addr made i ≡ one_word 1 i
    unfolding mapped
    made_imap i lt =
        ap (λ (w : Words). w i) (made_other imap_addr refl (ground arith))
        ∙ card.sdread-sdwrite_self imap_addr (one_word 1)
            (card.sdwrite fs_base (new_super_block s) d) i lt

    made_super : (i : ℕ) → i < 128 → card.sdread fs_base made i ≡ new_super_block s i
    unfolding mapped
    made_super i lt =
        ap (λ (w : Words). w i)
          (made_other fs_base refl (ground arith)
            ∙ card.sdread-sdwrite_ne fs_base imap_addr (one_word 1)
                (card.sdwrite fs_base (new_super_block s) d) refl refl (ground arith))
        ∙ card.sdread-sdwrite_self fs_base (new_super_block s) d i lt

    -- the word by which init_file_system knows the card again
    pub made_magic : card.sdread fs_base (mkfs card s inode dir d) magic_at ≡ magic_number
    unfolding made new_super_block
    made_magic = made_super magic_at (omega arith)

    made_first : (i : ℕ) → i < 128 → part card made 0 i ≡ one_word 1 i
    unfolding cleared
    made_first i lt =
        ap (λ (w : Words). w i)
          (made_past smap_addr refl (ground arith)
            ∙ clear_other 255 (smap_addr + sector_size) smap_addr
                (card.sdwrite smap_addr (one_word 1) mapped) refl refl (inl (ground arith)))
        ∙ card.sdread-sdwrite_self smap_addr (one_word 1) mapped i lt

    made_rest : (si i : ℕ) → 0 < si → si < 256 → i < 128 → part card made si i ≡ 0
    unfolding cleared
    made_rest si i low high lt =
        ap (λ (w : Words). w i)
          (made_past (smap_addr + si * sector_size) (omega arith) (omega arith))
        ∙ clear_inside 255 (smap_addr + sector_size) (smap_addr + si * sector_size) i
            (card.sdwrite smap_addr (one_word 1) mapped) refl (omega arith) (omega arith)
            (omega arith) lt

    made_blocks : (b : ℕ) → b < 1048576 → block_used card made b ≡ (b == 0)
    made_blocks b lt = elim (Bool-cases (b / 4096 == 0)) [
      | inl e ↦
          let first : b / 4096 ≡ 0 = ground arith in
          let low : b % 4096 ≡ b = omega arith in
          rw first (
            used_first (part card made 0) (b % 4096) made_first (omega arith)
            ∙ ap (λ (j : ℕ). j == 0) low)
      | inr e ↦
          let far : b / 4096 ≢ 0 = ground arith in
          let other : (b == 0) ≡ false = ground arith in
          rw other (
            used_none (part card made (b / 4096)) (b % 4096)
              (λ i h. made_rest (b / 4096) i (omega arith) (omega arith) h) (omega arith))
    ]

    made_root : (i : ℕ) → i < 128 → card.sdread darray_addr made i ≡ root_dir dir i
    unfolding made mkfs cleared mapped
    made_root i lt =
        card.sdread-sdwrite_self darray_addr (root_dir dir)
          (card.sdwrite iarray_addr (root_inode inode) cleared) i lt

  -- what is in use after mkfs and mount
  pub record Fresh (g : Fs D) : Type 0 where
    pub inodes : (b : ℕ) → b < 4096 → used g.imap b ≡ (b == 0)
    pub blocks : (b : ℕ) → b < 1048576 → block_used card g.disk b ≡ (b == 0)
    pub in_step : InStep card g
    pub stored : Stored card g
    pub at_root : g.current_dir_pointer ≡ darray_addr
    pub empty : (i : ℕ) → i < max_dir_item_num → entry_valid g.current_dir i ≡ false

  -- After mkfs and mount, whatever the card and the local structs held, inode 0 and block 0 and no
  -- other are in use, memory and card agree on both maps and the super block, and the current
  -- directory is the root, which has no entry.
  pub mount-Fresh :
      (s inode dir : Words) (f : Fs D) (d : D)
      → Fresh (mount card (record f { disk = mkfs card s inode dir d }))
  unfolding mount made
  mount-Fresh s inode dir f d = record {
    inodes = λ b lt.
        used_first (card.sdread imap_addr (made s inode dir d)) b (made_imap s inode dir d) lt;
    blocks = made_blocks s inode dir d;
    in_step = λ i h. refl;
    stored = ((λ i h. refl), (λ i h. refl));
    at_root = refl;
    empty = λ i lt.
        entry_valid-root_dir (card.sdread darray_addr (made s inode dir d)) dir i
          (made_root s inode dir d) lt;
  }
