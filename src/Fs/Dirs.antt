-- ===== src/Fs/Dirs.antt =====
-- kernel/fs/fs.c: making and mounting the file system, and the operations on directories.
--
-- An operation returns what it prints. The contents of a local struct that is not assigned are
-- parameters, named after the struct.
use ucas_os.Common.{
  ℕ, zero, suc, ◌+◌, ◌*◌, ◌/◌, ◌%◌, not, ◌==◌, ltb, if◌then◌else◌, upd, List, [], ◌∷◌, Option, none,
  some, length, take, drop, ◌++◌,
}
use ucas_os.Strings.{strlen, separate, same_string}
use ucas_os.Fs.{
  Words, Card, Fs, u32, sub32, minus_one, sector_size, iarray_addr, darray_addr, iarray_alloc,
  iarray_free, darray_alloc, darray_free,
}
use ucas_os.Fs.Layout.{
  file_normal, file_dir, max_name_lenth, max_dir_item_num, inode_type, pointers_at, new_inode,
  set_entry_valid, entry_ino, set_entry_ino, put_text, clear_entries, find_entry, free_entry,
  has_entry,
}

-- what an operation on directories comes to
pub data Message : Type 0 where
  done too_long_name file_exists too_many_entries insufficient_inode insufficient_block : Message
  not_a_directory not_empty no_such_directory : Message

abbrev pub backslash : ℕ
backslash = 92

-- if exist, the inode, else 0
unfoldable pub is_file_exist : Words → List ℕ → ℕ
is_file_exist dir s = elim (find_entry max_dir_item_num 0 dir s) [
  | none ↦ 0
  | some i ↦ entry_ino dir i
]

abbrev pub inode_sector : ℕ → ℕ
inode_sector ino = iarray_addr + ino / 8 * sector_size

module _ {D : Type 0} (card : Card D) where
  abbrev pub read_inode : ℕ → Fs D → Words
  read_inode ino f = card.sdread (inode_sector ino) f.disk

  -- the loop over the parts of a path, each of which takes one byte at least: the name that is left
  -- and the directory it is looked for in
  unfoldable pub walk : ℕ → List ℕ → Words → Fs D → Option (List ℕ × Words)
  walk zero s dir f = none
  walk (suc n) s dir f = elim (separate s backslash) [
    | none ↦ some (s, dir)
    | some pos ↦ elim (find_entry max_dir_item_num 0 dir (take pos s ++ 0 ∷ [])) [
      | none ↦ none
      | some i ↦
          let ino = entry_ino dir i in
          let inode = read_inode ino f in
          let rest =
            walk n (drop (suc pos) s) (card.sdread (inode (pointers_at (ino % 8) 0)) f.disk) f in
          if inode_type (ino % 8) inode == file_dir then rest else none
    ]
  ]

  -- the inode at the end of a path; -1 when it is not found
  unfoldable pub parse_path : List ℕ → Fs D → ℕ
  parse_path s f =
      if same_string s (backslash ∷ 0 ∷ [])
      then 0
      else elim (walk (suc (length s)) (drop 1 s) (card.sdread darray_addr f.disk) f) [
        | none ↦ minus_one
        | some (name, dir) ↦ elim (find_entry max_dir_item_num 0 dir name) [
          | none ↦ minus_one
          | some i ↦ entry_ino dir i
        ]
      ]

  -- the entry for a new file, and the write of the directory
  unfoldable pub add_entry : ℕ → ℕ → List ℕ → Fs D → Fs D
  add_entry i ino s f =
      let dir = put_text (set_entry_ino i ino f.current_dir) (33 + 32 * i) s in
      record f { current_dir = dir; disk = card.sdwrite f.current_dir_pointer dir f.disk }

  abbrev pub set_current_dir : Words → Fs D → Fs D
  set_current_dir dir f = record f { current_dir = dir }

  -- the end of mkdir: the inode's block and the directory in it
  unfoldable pub make_dir : Words → ℕ → List ℕ → Fs D → Message × Fs D
  make_dir d ino s f =
      let inode = new_inode (ino % 8) file_dir 512 (read_inode ino f) in
      let (block, g) = darray_alloc card f in
      elim block [
        | none ↦ (insufficient_block, g)
        | some dno ↦
            let p = u32 (darray_addr + dno * sector_size) in
            let empty =
              put_text (upd (clear_entries max_dir_item_num 0 d) 0 g.current_dir_pointer) 4 s in
            (
              done,
              record g {
                disk = card.sdwrite p empty (
                    card.sdwrite (inode_sector ino) (upd inode (pointers_at (ino % 8) 0) p) g.disk);
              },
            )
      ]

  -- the end of touch
  unfoldable pub make_file : ℕ → List ℕ → Fs D → Message × Fs D
  make_file ino s f = (
    done,
    record f {
      disk =
          card.sdwrite (inode_sector ino) (new_inode (ino % 8) file_normal 0 (read_inode ino f))
            f.disk;
    },
  )

  -- what mkdir and touch share: the checks, the entry and the inode
  unfoldable pub create : (ℕ → List ℕ → Fs D → Message × Fs D) → List ℕ → Fs D → Message × Fs D
  create make s f =
      if ltb max_name_lenth (strlen s)
      then (too_long_name, f)
      else if not (is_file_exist f.current_dir s == 0)
      then (file_exists, f)
      else elim (free_entry max_dir_item_num 0 f.current_dir) [
        | none ↦ (too_many_entries, f)
        | some i ↦
            let (ino, g) =
              iarray_alloc card (set_current_dir (set_entry_valid i 1 f.current_dir) f) in
            elim ino [ none ↦ (insufficient_inode, g) | some n ↦ make n s (add_entry i n s g) ]
      ]

  unfoldable pub mkdir : Words → List ℕ → Fs D → Message × Fs D
  mkdir d s f = create (make_dir d) s f

  unfoldable pub touch : List ℕ → Fs D → Message × Fs D
  touch s f = create make_file s f

  -- rmdir of the entry `i`
  unfoldable pub remove_dir : ℕ → Fs D → Message × Fs D
  remove_dir i f =
      let ino = entry_ino f.current_dir i in
      let inode = read_inode ino f in
      let p = inode (pointers_at (ino % 8) 0) in
      let d = card.sdread p f.disk in
      if not (inode_type (ino % 8) inode == file_dir)
      then (not_a_directory, f)
      else if has_entry max_dir_item_num 0 d
      then (not_empty, f)
      else (let g = darray_free card (sub32 p darray_addr / sector_size) (iarray_free card ino f) in
          let dir = set_entry_valid i 0 g.current_dir in
          (
            done,
            record g { current_dir = dir; disk = card.sdwrite g.current_dir_pointer dir g.disk },
          ))

  unfoldable pub rmdir : List ℕ → Fs D → Message × Fs D
  rmdir s f = elim (find_entry max_dir_item_num 0 f.current_dir s) [
    | none ↦ (no_such_directory, f)
    | some i ↦ remove_dir i f
  ]
