-- ===== src/Fs/Files.antt =====
-- kernel/fs/fs.c: open files. What a call leaves in regs[2] is returned.
--
-- A descriptor below -1 is an index before the array, and a `fault`; the memory behind the array is
-- kept aside, as if the array went on.
use ucas_os.Common.{
  ℕ, zero, suc, ◌+◌, ◌-◌, ◌*◌, ◌/◌, ◌%◌, Bool, not, ◌&&◌, ◌==◌, ltb, if◌then◌else◌, upd, List, [],
  ◌++◌,
}
use ucas_os.Common.Int.{ℤ, pos, negsuc, pred_ℤ, suc_ℤ}
use ucas_os.Slist.{slist_alloc, slist_free}
use ucas_os.Fs.{Words, Card, Fd, Fs, u32, sub32, minus_one, sector_size}
use ucas_os.Fs.Layout.{file_normal, inode_type, size_at, pointers_at, bytes_at}
use ucas_os.Fs.Dirs.{is_file_exist, read_inode}

-- what a call comes to; `unfinished` is a loop that runs out of fuel
pub data Outcome {ℓ} (A : Type ℓ) : Type ℓ where
  returned : A → Outcome A
  panicked : Outcome A
  fault : Outcome A
  unfinished : Outcome A

abbrev pub bind {ℓ κ} : {A : Type ℓ} {B : Type κ} → Outcome A → (A → Outcome B) → Outcome B
bind (returned a) k = k a
bind panicked k = panicked
bind fault k = fault
bind unfinished k = unfinished

abbrev pub o_rdwr : ℕ
o_rdwr = 0

abbrev pub o_rd : ℕ
o_rd = 1

abbrev pub o_wr : ℕ
o_wr = 2

abbrev pub fd_array_slist_size : ℕ
fd_array_slist_size = 65

-- fd_array[fd].offset = o
abbrev pub set_offset : {D : Type 0} → ℕ → ℕ → Fs D → Fs D
set_offset fd o f = record f {
  fd_array = upd f.fd_array fd (record (f.fd_array fd) { offset = o });
}

-- (x < y) ? x : y
abbrev pub least : ℕ → ℕ → ℕ
least x y = if ltb x y then x else y

module _ {D : Type 0} (card : Card D) where
  unfoldable pub fd_array_alloc : Fs D → ℤ × Fs D
  fd_array_alloc f =
      let (t, l) = slist_alloc f.fd_array_slist in (pred_ℤ (pos t), record f { fd_array_slist = l })

  unfoldable pub fd_array_free : ℤ → Fs D → Bool × Fs D
  fd_array_free index f =
      let (freed, l) = slist_free f.fd_array_slist (suc_ℤ index) fd_array_slist_size in
      (freed, record f { fd_array_slist = l })

  -- the inode in the descriptor is the one within its sector
  unfoldable pub fopen : List ℕ → ℕ → Fs D → ℕ × Fs D
  fopen s access f =
      let n = is_file_exist f.current_dir s in
      let inode = read_inode card n f in
      let ino = n % 8 in
      if n == 0
      then (minus_one, f)
      else if not (inode_type ino inode == file_normal)
      then (minus_one, f)
      else (let (fd, g) = fd_array_alloc f in
          elim fd [
            | negsuc i ↦ (minus_one, g)
            | pos i ↦
                let open_file : Fd = record {
                  ino = ino;
                  access = access;
                  size = inode (size_at ino);
                  offset = 0;
                } in
                (i, record g { fd_array = upd g.fd_array i open_file })
          ])

  unfoldable pub fclose : ℤ → Fs D → ℕ × Fs D
  fclose (negsuc zero) f = (0, f)
  fclose (negsuc (suc n)) f =
      let (freed, g) = fd_array_free (negsuc (suc n)) f in (if freed then 1 else 0, g)
  fclose (pos n) f = let (freed, g) = fd_array_free (pos n) f in (if freed then 1 else 0, g)

  -- the address of the sector at an offset of the file, and the offset in that sector
  unfoldable pub offset_to_pointer : Words → ℕ → ℕ → Fs D → Outcome (ℕ × ℕ)
  offset_to_pointer inode r offset f =
      let remain = offset - offset / 512 * 512 in
      let o = offset / 512 in
      if ltb o 10
      then returned (inode (pointers_at r o), remain)
      else if ltb o 138
      then returned (card.sdread (inode (pointers_at r 10)) f.disk (o - 10), remain)
      else if ltb o 16522
      then (let i = (o - 138) / 128 in
          let d = card.sdread (inode (pointers_at r 11)) f.disk in
          returned (card.sdread (d i) f.disk (o - 138 - i * 128), remain))
      else if ltb o 2113674
      then (let i = (o - 16522) / (128 * 128) in
          let o' = o - 16522 - i * 128 * 128 in
          let d = card.sdread (inode (pointers_at r 12)) f.disk in
          let e = card.sdread (d i) f.disk in
          returned (card.sdread (e (o' / 128)) f.disk (o' - o' / 128 * 128), remain))
      else panicked

  -- the loop of fread over the inode `r` of a sector: what is put into the buffer
  unfoldable pub read_loop : ℕ → Words → ℕ → ℕ → ℕ → Fs D → Outcome (List ℕ × Fs D)
  read_loop zero inode r fd size_remain f =
      if size_remain == 0 then returned ([], f) else unfinished
  read_loop (suc fuel) inode r fd size_remain f =
      let offset = (f.fd_array fd).offset in
      let round = bind (offset_to_pointer inode r offset f) (λ (p, offset_remain).
        let read_size = least size_remain (sector_size - offset_remain) in
        let got = bytes_at (card.sdread p f.disk) offset_remain read_size in
        bind
          (read_loop fuel inode r fd (size_remain - read_size)
            (set_offset fd (u32 (offset + read_size)) f))
          (λ (rest, g). returned (got ++ rest, g))) in
      if size_remain == 0 then returned ([], f) else round

  -- the result, the bytes, and the state; the comparison with `size` is unsigned
  unfoldable pub fread : ℤ → ℕ → Fs D → Outcome (ℕ × List ℕ × Fs D)
  fread (negsuc zero) size f = returned (0, [], f)
  fread (negsuc (suc n)) size f = fault
  fread (pos fd) size f =
      let file = f.fd_array fd in
      let total = least (sub32 file.size file.offset) size in
      if not (file.access == o_rdwr) && not (file.access == o_rd)
      then returned (0, [], f)
      else bind (read_loop total (read_inode card file.ino f) (file.ino % 8) fd total f)
          (λ (got, g). returned (total, got, g))

  unfoldable pub fseek : ℤ → ℕ → Fs D → Outcome (Fs D)
  fseek (negsuc zero) offset f = returned f
  fseek (negsuc (suc n)) offset f = fault
  fseek (pos fd) offset f = returned (set_offset fd offset f)
