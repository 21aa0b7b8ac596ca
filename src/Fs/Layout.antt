-- ===== src/Fs/Layout.antt =====
-- The structs of include/fs/fs.h at their places in a sector: inodes and directories.
use ucas_os.Common.{
  ℕ, zero, suc, ◌+◌, ◌*◌, Bool, true, false, not, ◌&&◌, ◌==◌, if◌then◌else◌, upd, List, [], ◌∷◌,
  Option, none, some,
}
use ucas_os.Strings.{same_string}
use ucas_os.Fs.{Words, get_byte, set_byte}

abbrev pub file_normal : ℕ
file_normal = 1

abbrev pub file_dir : ℕ
file_dir = 2

abbrev pub max_name_lenth : ℕ
max_name_lenth = 26

abbrev pub max_dir_item_num : ℕ
max_dir_item_num = 15

-- inode_t number `r` of a sector: 16 words
abbrev pub inode_type : ℕ → Words → ℕ
inode_type r w = get_byte w (64 * r)

-- the places of the words `size`, `size_allocated` and `pointers[j]`
abbrev pub size_at : ℕ → ℕ
size_at r = 16 * r + 1

abbrev pub size_allocated_at : ℕ → ℕ
size_allocated_at r = 16 * r + 2

abbrev pub pointers_at : ℕ → ℕ → ℕ
pointers_at r j = 16 * r + 3 + j

-- the assignments to type, links, size and size_allocated of a new inode
abbrev pub new_inode : ℕ → ℕ → ℕ → Words → Words
new_inode r type size w =
    upd (upd (set_byte (set_byte w (64 * r) type) (64 * r + 1) 1) (size_at r) size)
      (size_allocated_at r) size

-- dir_t: word 0 is `fpointer`, and entry `i` starts at byte 32 + 32 * i
abbrev pub entry_valid : Words → ℕ → Bool
entry_valid d i = not (get_byte d (32 + 32 * i) == 0)

abbrev pub set_entry_valid : ℕ → ℕ → Words → Words
set_entry_valid i v d = set_byte d (32 + 32 * i) v

abbrev pub entry_ino : Words → ℕ → ℕ
entry_ino d i = d (15 + 8 * i)

abbrev pub set_entry_ino : ℕ → ℕ → Words → Words
set_entry_ino i ino d = upd d (15 + 8 * i) ino

-- `n` bytes from an offset
unfoldable pub bytes_at : Words → ℕ → ℕ → List ℕ
bytes_at d o zero = []
bytes_at d o (suc n) = get_byte d o ∷ bytes_at d (suc o) n

-- map[i].name, 27 bytes
unfoldable pub entry_name : Words → ℕ → List ℕ
entry_name d i = bytes_at d (33 + 32 * i) 27

-- strcpy to an offset of a sector
unfoldable pub put_text : Words → ℕ → List ℕ → Words
put_text d o [] = set_byte d o 0
put_text d o (c ∷ s) = if c == 0 then set_byte d o 0 else put_text (set_byte d o c) (suc o) s

-- for(i = 0; i < MAX_DIR_ITEM_NUM; ++i) map[i].valid = 0, `n` rounds from `i`
unfoldable pub clear_entries : ℕ → ℕ → Words → Words
clear_entries zero i d = d
clear_entries (suc n) i d = clear_entries n (suc i) (set_entry_valid i 0 d)

-- the loop that looks for the first valid entry of a name, `n` rounds from `i`
unfoldable pub find_entry : ℕ → ℕ → Words → List ℕ → Option ℕ
find_entry zero i d s = none
find_entry (suc n) i d s =
    let rest = find_entry n (suc i) d s in
    if entry_valid d i && same_string (entry_name d i) s then some i else rest

-- the loop that looks for the first entry that is not valid; none when `i` reaches the end
unfoldable pub free_entry : ℕ → ℕ → Words → Option ℕ
free_entry zero i d = none
free_entry (suc n) i d =
    let rest = free_entry n (suc i) d in if entry_valid d i then rest else some i

-- the loop that looks for any valid entry
unfoldable pub has_entry : ℕ → ℕ → Words → Bool
has_entry zero i d = false
has_entry (suc n) i d = let rest = has_entry n (suc i) d in if entry_valid d i then true else rest
