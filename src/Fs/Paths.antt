-- ===== src/Fs/Paths.antt =====
-- parse_path of kernel/fs/fs.c: the rounds that the walk along a path is given are enough.
use ucas_os.Common.{
  ℕ, zero, suc, ◌%◌, ◌<◌, ◌≡◌, refl, ap, arith, ◌==◌, if◌then◌else◌, List, [], ◌∷◌, ◌++◌, Option,
  none, some, length, take, drop, length-drop, Bool-cases, inl, inr,
}
use ucas_os.Strings.{separate, after}
use ucas_os.Fs.{Words, Card, Fs}
use ucas_os.Fs.Layout.{file_dir, max_dir_item_num, inode_type, pointers_at, entry_ino, find_entry}
use ucas_os.Fs.Dirs.{backslash, read_inode, walk}

abbrev Within : List ℕ → Option ℕ → Type 0
Within s none = Unit {0}
Within s (some i) = i < length s

Within-after : (x : ℕ) (s : List ℕ) (r : Option ℕ) → Within s r → Within (x ∷ s) (after r)
Within-after x s none h = tt
Within-after x s (some i) h = omega arith

separate-Within : (s : List ℕ) (c : ℕ) → Within s (separate s c)
unfolding separate
separate-Within [] c = tt
separate-Within (x ∷ s) c = elim (Bool-cases (x == 0)) [
  | inl e ↦ rw e tt
  | inr e ↦ elim (Bool-cases (x == c)) [
    | inl h ↦ rw (e, h) (omega arith)
    | inr h ↦ rw (e, h) (Within-after x s (separate s c) (separate-Within s c))
  ]
]

module _ {D : Type 0} (card : Card D) where
  -- what a round comes to, by the entry of the part, and by the end of the part
  abbrev enter : ℕ → List ℕ → Words → Fs D → ℕ → Option ℕ → Option (List ℕ × Words)
  enter n s dir f pos e = elim e [
    | none ↦ none
    | some i ↦
        let ino = entry_ino dir i in
        let inode = read_inode card ino f in
        let rest =
          walk card n (drop (suc pos) s) (card.sdread (inode (pointers_at (ino % 8) 0)) f.disk) f in
        if inode_type (ino % 8) inode == file_dir then rest else none
  ]

  abbrev step : ℕ → List ℕ → Words → Fs D → Option ℕ → Option (List ℕ × Words)
  step n s dir f r = elim r [
    | none ↦ some (s, dir)
    | some pos ↦ enter n s dir f pos (find_entry max_dir_item_num 0 dir (take pos s ++ 0 ∷ []))
  ]

  enter_same :
      (n : ℕ) (s : List ℕ) (dir : Words) (f : Fs D) (pos : ℕ) (e : Option ℕ)
      → ((dir : Words)
          → walk card (suc n) (drop (suc pos) s) dir f ≡ walk card n (drop (suc pos) s) dir f)
      → enter (suc n) s dir f pos e ≡ enter n s dir f pos e
  enter_same n s dir f pos none same = refl
  enter_same n s dir f pos (some i) same =
      let inode = read_inode card (entry_ino dir i) f in
      ap
        (λ (rest : Option (List ℕ × Words)).
          if inode_type (entry_ino dir i % 8) inode == file_dir then rest else none)
        (same (card.sdread (inode (pointers_at (entry_ino dir i % 8) 0)) f.disk))

  -- The walk along a path, given more rounds than the path has bytes, comes to the same with one
  -- round more.
  pub walk_enough :
      (n : ℕ) (s : List ℕ) (dir : Words) (f : Fs D)
      → length s < n
      → walk card (suc n) s dir f ≡ walk card n s dir f
  unfolding walk
  walk_enough zero s dir f lt = absurd (omega arith)
  walk_enough (suc n) s dir f lt =
      by_part (separate s backslash) (separate-Within s backslash) (λ pos p dir'.
        walk_enough n (drop (suc pos) s) dir' f (omega (arith, length-drop (suc pos) s)))
    where
      by_part :
          (r : Option ℕ)
          → Within s r
          → ((pos : ℕ)
              → pos < length s
              → (dir' : Words)
              → walk card (suc n) (drop (suc pos) s) dir' f ≡ walk card n (drop (suc pos) s) dir' f)
          → step (suc n) s dir f r ≡ step n s dir f r
      by_part none h same = refl
      by_part (some pos) h same =
          enter_same n s dir f pos (find_entry max_dir_item_num 0 dir (take pos s ++ 0 ∷ []))
            (same pos h)
