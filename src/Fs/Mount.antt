-- ===== src/Fs/Mount.antt =====
-- kernel/fs/fs.c: mkfs, mount and statfs, and the operations that only read: cd and ls.
use ucas_os.Common.{
  ℕ, zero, suc, ◌+◌, ◌%◌, ◌==◌, if◌then◌else◌, upd, List, [], ◌∷◌, none, some, get_or,
}
use ucas_os.Strings.{same_string}
use ucas_os.Fs.{
  Words, Card, Fs, minus_one, sector_size, fs_base, imap_addr, smap_addr, iarray_addr, darray_addr,
  data_used, inode_used,
}
use ucas_os.Fs.Layout.{
  file_dir, max_dir_item_num, inode_type, pointers_at, new_inode, entry_valid, entry_ino,
  entry_name, put_text, clear_entries, find_entry,
}
use ucas_os.Fs.Dirs.{
  Message, done, not_a_directory, no_such_directory, backslash, read_inode, parse_path,
}

-- the reserved word that holds MAGIC_NUMBER
abbrev pub magic_at : ℕ
magic_at = 88

abbrev pub magic_number : ℕ
magic_number = 0x99569A78

-- the assignments to a super_block_t
unfoldable pub new_super_block : Words → Words
new_super_block s =
    let offsets = upd (upd (upd (upd s 0 1) 1 2) 2 258) 3 1024 in
    let sizes = upd (upd (upd (upd offsets 4 64) 5 512) 6 4096) 7 1048576 in
    upd (upd (upd sizes data_used 1) inode_used 1) magic_at magic_number

-- buf[128] = {0}, and buf[0] = v
abbrev pub one_word : ℕ → Words
one_word v = upd (λ i. 0) 0 v

-- the sector of the root's inode, and that of its directory
unfoldable pub root_inode : Words → Words
root_inode inode = upd (new_inode 0 file_dir 512 inode) (pointers_at 0 0) darray_addr

unfoldable pub root_dir : Words → Words
root_dir d = put_text (upd (clear_entries max_dir_item_num 0 d) 0 darray_addr) 4 (47 ∷ 0 ∷ [])

-- a piece of what ls prints after its first line
pub data Shown : Type 0 where
  name : List ℕ → Shown
  newline : Shown

-- the loop of ls, `n` rounds from `i`, and its last newline
unfoldable pub ls_loop : ℕ → ℕ → ℕ → Words → List Shown
ls_loop zero i j d = if j == 0 then [] else newline ∷ []
ls_loop (suc n) i j d =
    let same = ls_loop n (suc i) j d in
    let full = ls_loop n (suc i) 0 d in
    let next = ls_loop n (suc i) (suc j) d in
    if entry_valid d i
    then name (entry_name d i) ∷ (if j == 4 then newline ∷ full else next)
    else same

module _ {D : Type 0} (card : Card D) where
  -- the sectors of the sector map after the first, `n` of them
  unfoldable pub clear_smap : ℕ → ℕ → D → D
  clear_smap zero addr d = d
  clear_smap (suc n) addr d = clear_smap n (addr + sector_size) (card.sdwrite addr (one_word 0) d)

  -- the parameters are what the structs `s`, `inode` and `dir_root` hold before
  unfoldable pub mkfs : Words → Words → Words → D → D
  mkfs s inode dir d =
      let d₁ = card.sdwrite fs_base (new_super_block s) d in
      let d₂ = card.sdwrite smap_addr (one_word 1) (card.sdwrite imap_addr (one_word 1) d₁) in
      let d₃ = clear_smap 255 (smap_addr + sector_size) d₂ in
      card.sdwrite darray_addr (root_dir dir) (card.sdwrite iarray_addr (root_inode inode) d₃)

  unfoldable pub mount : Fs D → Fs D
  mount f = record f {
    super_block = card.sdread fs_base f.disk;
    current_dir = card.sdread darray_addr f.disk;
    current_dir_pointer = darray_addr;
    imap = card.sdread imap_addr f.disk;
    smap_index = 0;
    smap = card.sdread smap_addr f.disk;
  }

  -- the numbers that statfs prints, in order
  unfoldable pub statfs : Fs D → List ℕ
  statfs f =
      let s = card.sdread fs_base f.disk in
      s inode_used
      ∷ s 6
      ∷ s data_used
      ∷ s 7
      ∷ s magic_at
      ∷ fs_base
      ∷ s 0
      ∷ 1
      ∷ s 1
      ∷ 256
      ∷ s 2
      ∷ s 3
      ∷ s 4
      ∷ s 5
      ∷ []

  -- current_dir_pointer = p, and the read of the directory there
  abbrev pub enter_dir : ℕ → Fs D → Fs D
  enter_dir p f = record f { current_dir_pointer = p; current_dir = card.sdread p f.disk }

  -- the end of cd, for an inode or -1
  unfoldable pub cd_inode : ℕ → Fs D → Message × Fs D
  cd_inode ino f =
      let inode = read_inode card ino f in
      if ino == minus_one
      then (no_such_directory, f)
      else if inode_type (ino % 8) inode == file_dir
      then (done, enter_dir (inode (pointers_at (ino % 8) 0)) f)
      else (not_a_directory, f)

  -- the entry of a name in the current directory, or -1
  abbrev pub look_up : List ℕ → Fs D → ℕ
  look_up s f = elim (find_entry max_dir_item_num 0 f.current_dir s) [
    | none ↦ minus_one
    | some i ↦ entry_ino f.current_dir i
  ]

  unfoldable pub cd : List ℕ → Fs D → Message × Fs D
  cd s f =
      if same_string (46 ∷ 46 ∷ 0 ∷ []) s
      then if f.current_dir_pointer == darray_addr
        then (done, f)
        else (done, enter_dir (f.current_dir 0) f)
      else if same_string (46 ∷ 0 ∷ []) s
      then (done, f)
      else if get_or s 0 0 == backslash
      then cd_inode (parse_path card s f) f
      else cd_inode (look_up s f) f

unfoldable pub ls : Words → List Shown
ls dir = ls_loop max_dir_item_num 0 0 dir
