-- ===== src/Fs/Writing.antt =====
-- kernel/fs/fs.c: fwrite.
use ucas_os.Common.{
  ℕ, zero, suc, ◌+◌, ◌-◌, ◌*◌, ◌/◌, ◌%◌, not, ◌&&◌, ◌==◌, leb, if◌then◌else◌, upd, none, some,
}
use ucas_os.Common.Int.{ℤ, pos, negsuc}
use ucas_os.Fs.{Words, Card, Fd, Fs, u32, sub32, sector_size, darray_addr, set_byte, darray_alloc}
use ucas_os.Fs.Layout.{size_at, size_allocated_at, pointers_at}
use ucas_os.Fs.Dirs.{read_inode, inode_sector}
use ucas_os.Fs.Files.{
  Outcome, returned, fault, unfinished, bind, o_rdwr, o_wr, offset_to_pointer, least,
}

-- memcopy of `n` bytes of the buffer, from byte `i`, to the place `o` of a sector
unfoldable pub put_bytes : Words → ℕ → (ℕ → ℕ) → ℕ → ℕ → Words
put_bytes w o buf i zero = w
put_bytes w o buf i (suc n) = put_bytes (set_byte w (o + i) (buf i)) o buf (suc i) n

-- fd_array[fd].offset += t and fd_array[fd].size += t
abbrev pub advance : ℕ → Fd → Fd
advance t file = record file { offset = u32 (file.offset + t); size = u32 (file.size + t) }

-- inode[r].pointers[pi] = p and inode[r].size_allocated += 512
abbrev pub add_pointer : ℕ → ℕ → Words → Words
add_pointer r p inode =
    let allocated = inode (size_allocated_at r) in
    let w = upd inode (pointers_at r (allocated / 512)) p in
    upd w (size_allocated_at r) (u32 (w (size_allocated_at r) + 512))

module _ {D : Type 0} (card : Card D) where
  -- the inode of the descriptor is `r` of its sector. The result is the inodes' sector, the bytes
  -- that were written, and the state. `buf` stays where it is from round to round.
  unfoldable pub write_loop :
      ℕ → (ℕ → ℕ) → Words → ℕ → ℕ → ℕ → ℕ → Fs D → Outcome (Words × ℕ × Fs D)
  write_loop zero buf inode r fd size written f =
      if size == 0 then returned (inode, written, f) else unfinished
  write_loop (suc fuel) buf inode r fd size written f =
      let offset = (f.fd_array fd).offset in
      let remain = sub32 (inode (size_allocated_at r)) offset in
      let write = bind (offset_to_pointer card inode r offset f) (λ (p, rest).
        let read_size = offset - offset / 512 * 512 in
        let t = least size (512 - read_size) in
        let w = put_bytes (card.sdread p f.disk) read_size buf 0 t in
        write_loop fuel buf (upd inode (size_at r) (u32 (inode (size_at r) + t))) r fd (size - t)
          (written + t)
          (record f {
            disk = card.sdwrite p w f.disk;
            fd_array = upd f.fd_array fd (advance t (f.fd_array fd));
          })) in
      let (block, g) = darray_alloc card f in
      let grow : Outcome (Words × ℕ × Fs D) = elim block [
        | none ↦ returned (inode, written, g)
        | some dno ↦
            write_loop fuel buf (add_pointer r (u32 (darray_addr + dno * sector_size)) inode) r fd
              size written g
      ] in
      if size == 0 then returned (inode, written, f) else if leb size remain then write else grow

  -- The fuel is for a write of every byte by itself, and for as many new blocks.
  unfoldable pub fwrite : ℤ → (ℕ → ℕ) → ℕ → Fs D → Outcome (ℕ × Fs D)
  fwrite (negsuc zero) buf size f = returned (0, f)
  fwrite (negsuc (suc n)) buf size f = fault
  fwrite (pos fd) buf size f =
      let file = f.fd_array fd in
      if not (file.access == o_rdwr) && not (file.access == o_wr)
      then returned (0, f)
      else bind (write_loop (2 * size) buf (read_inode card file.ino f) (file.ino % 8) fd size 0 f)
          (λ (inode, written, g).
            returned
              (written, record g { disk = card.sdwrite (inode_sector file.ino) inode g.disk }))
