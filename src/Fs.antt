-- ===== src/Fs.antt =====
-- kernel/fs/fs.c: the state of the file system, its sectors as words, and the two bit maps.
--
-- The SD card is reached through `sdread` and `sdwrite` of arch/mips/pmon/common.c, and `Card` is what
-- the code relies on of them.  A sector is 128 little-endian words, and the
-- structs that lie in it (include/fs/fs.h) are read and written at their offsets.
pub mod Layout
pub mod Dirs
pub mod Mount
pub mod Paths
pub mod Opened
pub mod Files
pub mod Writing
pub mod Reads
pub mod Growth
pub mod Writes
pub mod Blocks
pub mod Formatted
pub mod Entries
pub mod Bits
pub mod Maps
pub mod Sample
mod Examples
use ucas_os.Common.{
  ℕ, zero, suc, ◌+◌, ◌-◌, ◌*◌, ◌/◌, ◌%◌, ◌^◌, ◌<◌, ◌≡◌, ◌≢◌, Bool, true, false, ◌==◌, ltb,
  if◌then◌else◌, upd, Option, none, some,
}
use ucas_os.Slist.{Slist}

abbrev pub Words : Type 0
Words = ℕ → ℕ

-- The reads and writes of one sector, on a card in the state `D`.
pub record Card (D : Type 0) : Type 0 where
  pub sdread : ℕ → D → Words
  pub sdwrite : ℕ → Words → D → D
  pub sdread-sdwrite_self :
      (a : ℕ) (w : Words) (d : D) (i : ℕ) → i < 128 → sdread a (sdwrite a w d) i ≡ w i
  pub sdread-sdwrite_ne :
      (a b : ℕ) (w : Words) (d : D)
      → a % 512 ≡ 0
      → b % 512 ≡ 0
      → a ≢ b
      → sdread a (sdwrite b w d) ≡ sdread a d

-- fd_t
pub record Fd : Type 0 where
  pub ino : ℕ
  pub access : ℕ
  pub size : ℕ
  pub offset : ℕ

-- the globals of fs.c, and the card
pub record Fs (D : Type 0) : Type 0 where
  pub disk : D
  pub super_block : Words
  pub current_dir : Words
  pub current_dir_pointer : ℕ
  pub imap : Words
  pub smap : Words
  pub smap_index : ℕ
  pub fd_array : ℕ → Fd
  pub fd_array_slist : Slist

abbrev pub u32 : ℕ → ℕ
u32 n = n % 2 ^ 32

-- x - y of two uint32_t
abbrev pub sub32 : ℕ → ℕ → ℕ
sub32 x y = u32 (x + 2 ^ 32 - y)

-- the result -1 as a register holds it
abbrev pub minus_one : ℕ
minus_one = 2 ^ 32 - 1

abbrev pub sector_size : ℕ
sector_size = 512

abbrev pub fs_base : ℕ
fs_base = 0x01000000

abbrev pub imap_addr : ℕ
imap_addr = 0x01000200

abbrev pub smap_addr : ℕ
smap_addr = 0x01000400

abbrev pub iarray_addr : ℕ
iarray_addr = 0x01020400

abbrev pub darray_addr : ℕ
darray_addr = 0x01080000

-- the byte at an offset of a sector
unfoldable pub get_byte : Words → ℕ → ℕ
get_byte w o = w (o / 4) / 256 ^ (o % 4) % 256

unfoldable pub set_byte : Words → ℕ → ℕ → Words
set_byte w o v =
    let unit = 256 ^ (o % 4) in
    let old = w (o / 4) in
    upd w (o / 4) (old / (unit * 256) * (unit * 256) + v % 256 * unit + old % unit)

-- fields of super_block_t
abbrev pub data_used : ℕ
data_used = 8

abbrev pub inode_used : ℕ
inode_used = 9

-- t & (1 << j)
abbrev pub bit : ℕ → ℕ → Bool
bit t zero = t % 2 == 1
bit t (suc j) = bit (t / 2) j

-- t | (1 << j)
abbrev pub set_bit : ℕ → ℕ → ℕ
set_bit t zero = t / 2 * 2 + 1
set_bit t (suc j) = t % 2 + 2 * set_bit (t / 2) j

-- t & ~(1 << j)
abbrev pub clear_bit : ℕ → ℕ → ℕ
clear_bit t zero = t / 2 * 2
clear_bit t (suc j) = t % 2 + 2 * clear_bit (t / 2) j

-- for(j = 0; (t & 0x1) && j < 32; t >>= 1, ++j): the value of j, `n` rounds from the end
unfoldable pub low_ones : ℕ → ℕ → ℕ
low_ones zero t = 0
low_ones (suc n) t = let rest = low_ones n (t / 2) in if t % 2 == 1 then suc rest else 0

-- the loop over a map's words, `n` rounds from word `i`: the place of the first clear bit
unfoldable pub first_clear : ℕ → ℕ → Words → Option (ℕ × ℕ)
first_clear zero i map = none
first_clear (suc n) i map =
    let rest = first_clear n (suc i) map in
    let j = low_ones 32 (map i) in if j == 32 then rest else some (i, j)

-- super_block.field += 1, and -= 1
abbrev pub count_up : ℕ → Words → Words
count_up field s = upd s field (u32 (s field + 1))

abbrev pub count_down : ℕ → Words → Words
count_down field s = upd s field (sub32 (s field) 1)

module _ {D : Type 0} (card : Card D) where
  -- the write of the inode map and of the super block
  abbrev pub store_imap : Words → Words → Fs D → Fs D
  store_imap map s f = record f {
    imap = map;
    super_block = s;
    disk = card.sdwrite fs_base s (card.sdwrite imap_addr map f.disk);
  }

  -- the number of the inode, none for -1
  unfoldable pub iarray_alloc : Fs D → Option ℕ × Fs D
  iarray_alloc f = elim (first_clear 128 0 f.imap) [
    | none ↦ (none, f)
    | some (i, j) ↦ (
      some (i * 32 + j),
      store_imap (upd f.imap i (set_bit (f.imap i) j)) (count_up inode_used f.super_block) f,
    )
  ]

  unfoldable pub iarray_free : ℕ → Fs D → Fs D
  iarray_free ino f =
      let i = ino / 32 in
      let j = ino - i * 32 in
      store_imap (upd f.imap i (clear_bit (f.imap i) j)) (count_down inode_used f.super_block) f

  -- the same for the part of the sector map in memory, which is number `smap_index`
  abbrev pub store_smap : Words → Words → Fs D → Fs D
  store_smap map s f = record f {
    smap = map;
    super_block = s;
    disk =
        card.sdwrite fs_base s (card.sdwrite (smap_addr + f.smap_index * sector_size) map f.disk);
  }

  -- smap_index = si, and the read of that part
  abbrev pub load_smap : ℕ → Fs D → Fs D
  load_smap si f = record f {
    smap_index = si;
    smap = card.sdread (smap_addr + si * sector_size) f.disk;
  }

  -- the while loop, `n` parts before the end
  unfoldable pub darray_loop : ℕ → Fs D → Option ℕ × Fs D
  darray_loop zero f = (none, f)
  darray_loop (suc n) f =
      let rest = darray_loop n (load_smap (suc f.smap_index) f) in
      elim (first_clear 128 0 f.smap) [
        | none ↦ rest
        | some (i, j) ↦ (
          some (f.smap_index * 512 * 8 + i * 32 + j),
          store_smap (upd f.smap i (set_bit (f.smap i) j)) (count_up data_used f.super_block) f,
        )
      ]

  unfoldable pub darray_alloc : Fs D → Option ℕ × Fs D
  darray_alloc f = darray_loop (256 - f.smap_index) f

  unfoldable pub darray_free : ℕ → Fs D → Fs D
  darray_free dno f =
      let si = dno / (512 * 8) in
      let d = dno - si * 512 * 8 in
      let i = d / 32 in
      let j = d - i * 32 in
      let g = load_smap si f in
      store_smap (upd g.smap i (clear_bit (g.smap i) j)) (count_down data_used g.super_block) g
