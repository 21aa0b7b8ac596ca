-- ===== src/Fs/Writes.antt =====
-- fwrite of kernel/fs/fs.c ends, and what it counts is how far the descriptor moves.
use ucas_os.Common.{
  ℕ, zero, suc, ◌+◌, ◌-◌, ◌*◌, ◌/◌, ◌^◌, ◌≤◌, ◌<◌, ◌≡◌, ◌≢◌, ap, true, false, arith, ◌==◌, leb, upd,
  Bool-cases, inl, inr, Option, none, some,
}
use ucas_os.Fs.{Words, Card, Fd, Fs, u32, sector_size, darray_addr, darray_alloc}
use ucas_os.Fs.Layout.{size_at, size_allocated_at}
use ucas_os.Fs.Files.{
  Outcome, returned, panicked, fault, unfinished, bind, offset_to_pointer, least,
}
use ucas_os.Fs.Reads.{Located, offset_to_pointer-Located}
use ucas_os.Fs.Writing.{put_bytes, advance, add_pointer, write_loop}
use ucas_os.Fs.Growth.{
  Written, room, darray_alloc_fds, Written-zero, Written-later, Written-same, room-add_pointer,
  room-advance,
}

-- what `fwrite` of an open file comes to
abbrev pub WrittenFile : {D : Type 0} → ℕ → ℕ → Fs D → Outcome (ℕ × Fs D) → Type 0
WrittenFile fd size f (returned (n, g)) =
    (n ≤ size) × ((g.fd_array fd).offset ≡ u32 ((f.fd_array fd).offset + n))
WrittenFile fd size f panicked = Unit {0}
WrittenFile fd size f fault = ⊥
WrittenFile fd size f unfinished = ⊥

module _ {D : Type 0} (card : Card D) where
  -- one round, when the loop ends for every state of the next
  module _ (fuel : ℕ) (buf : ℕ → ℕ) (r fd : ℕ)
      (next : (inode : Words) (size written : ℕ) (f : Fs D)
        → size + (size - room inode r (f.fd_array fd).offset) ≤ fuel
        → size + 512 ≤ 2 ^ 32
        → (f.fd_array fd).offset < 2 ^ 32
        → Written fd size written f (write_loop card fuel buf inode r fd size written f))
      (inode : Words) (size written : ℕ) (f : Fs D)
      (le : size + (size - room inode r (f.fd_array fd).offset) ≤ suc fuel)
      (big : size + 512 ≤ 2 ^ 32) (small : (f.fd_array fd).offset < 2 ^ 32) where
    grow :
        size ≢ 0
        → room inode r (f.fd_array fd).offset < size
        → (block : Option ℕ) (g : Fs D) → g.fd_array ≡ f.fd_array
        → Written fd size written f (elim block [
          | none ↦ returned (inode, written, g)
          | some dno ↦
              write_loop card fuel buf
                (add_pointer r (u32 (darray_addr + dno * sector_size)) inode)
                r
                fd
                size
                written
                g
        ])
    grow more tight none g same =
        Written-same fd size written f g (returned (inode, written, g)) same
          (Written-zero inode fd written g size (rw same small))
    grow more tight (some dno) g same =
        let inode' : Words = add_pointer r (u32 (darray_addr + dno * sector_size)) inode in
        let o : ℕ = (f.fd_array fd).offset in
        let offset : (g.fd_array fd).offset ≡ o = ap (λ (a : ℕ → Fd). (a fd).offset) same in
        let grown : room inode' r o ≡ u32 (room inode r o + 512) =
          room-add_pointer r (u32 (darray_addr + dno * sector_size)) inode o small in
        Written-same fd size written f g (write_loop card fuel buf inode' r fd size written g) same
          (next inode' size written g (rw (offset, grown) (omega arith)) big (rw offset small))

    put :
        size ≢ 0
        → size ≤ room inode r (f.fd_array fd).offset
        → (t : ℕ) → 0 < t
        → t ≤ size
        → (v : ℕ) (d : D)
        → Written fd size written f (
            write_loop card fuel buf
              (upd inode (size_at r) v)
              r
              fd
              (size - t)
              (written + t)
              (record f { disk = d; fd_array = upd f.fd_array fd (advance t (f.fd_array fd)) }))
    put more enough t some_byte le_t v d =
        let f' : Fs D = record f {
          disk = d;
          fd_array = upd f.fd_array fd (advance t (f.fd_array fd));
        } in
        let inode' : Words = upd inode (size_at r) v in
        let o : ℕ = (f.fd_array fd).offset in
        let e : (fd == fd) ≡ true = ground arith in
        let offset : (f'.fd_array fd).offset ≡ u32 (o + t) = rw e in
        let kept : (size_allocated_at r == size_at r) ≡ false = ground arith in
        let same : room inode' r (u32 (o + t)) ≡ room inode r (u32 (o + t)) = rw kept in
        let left : room inode r (u32 (o + t)) ≡ room inode r o - t =
          room-advance (inode (size_allocated_at r)) o t small (omega arith) in
        Written-later fd size written t f f'
          (write_loop card fuel buf inode' r fd (size - t) (written + t) f') le_t offset
          (next inode' (size - t) (written + t) f' (rw (offset, same, left) (omega arith))
            (omega arith) (rw offset (omega arith)))

  -- The loop ends: a round either writes a byte at least or makes the room bigger, until it is enough.
  pub write_loop-Written :
      (fuel : ℕ) (buf : ℕ → ℕ) (inode : Words) (r fd size written : ℕ) (f : Fs D)
      → size + (size - room inode r (f.fd_array fd).offset) ≤ fuel
      → size + 512 ≤ 2 ^ 32
      → (f.fd_array fd).offset < 2 ^ 32
      → Written fd size written f (write_loop card fuel buf inode r fd size written f)
  unfolding write_loop
  write_loop-Written zero buf inode r fd size written f le big small =
      let e : (size == 0) ≡ true = ground arith in rw e (Written-zero inode fd written f size small)
  write_loop-Written (suc fuel) buf inode r fd size written f le big small =
      elim (Bool-cases (size == 0)) [
        | inl e ↦ rw e (Written-zero inode fd written f size small)
        | inr e ↦ elim (Bool-cases (leb size (room inode r (f.fd_array fd).offset))) [
          | inl h ↦
              rw (e, h)
                (written_round
                  (λ t p q v d.
                    put fuel buf r fd (λ i s w g. write_loop-Written fuel buf i r fd s w g) inode
                      size written f le big small (ground arith) (ground arith) t p q v d)
                  (ground arith) (offset_to_pointer card inode r (f.fd_array fd).offset f)
                  (offset_to_pointer-Located card inode r (f.fd_array fd).offset f))
          | inr h ↦
              rw (e, h)
                (grow fuel buf r fd (λ i s w g. write_loop-Written fuel buf i r fd s w g) inode size
                  written f le big small (ground arith) (ground arith) (darray_alloc card f).0
                  (darray_alloc card f).1 (darray_alloc_fds card f))
        ]
      ]
    where
      written_round :
          ((t : ℕ)
            → 0 < t
            → t ≤ size
            → (v : ℕ) (d : D)
            → Written fd size written f (
                write_loop card fuel buf
                  (upd inode (size_at r) v)
                  r
                  fd
                  (size - t)
                  (written + t)
                  (record f {
                    disk = d;
                    fd_array = upd f.fd_array fd (advance t (f.fd_array fd));
                  })))
          → size ≢ 0
          → (o : Outcome (ℕ × ℕ)) → Located (f.fd_array fd).offset o
          → Written fd size written f (
              bind o (λ (p, rest).
                let offset = (f.fd_array fd).offset in
                let read_size = offset - offset / 512 * 512 in
                let t = least size (512 - read_size) in
                let w = put_bytes (card.sdread p f.disk) read_size buf 0 t in
                write_loop card fuel buf
                  (upd inode (size_at r) (u32 (inode (size_at r) + t)))
                  r
                  fd
                  (size - t)
                  (written + t)
                  (record f {
                    disk = card.sdwrite p w f.disk;
                    fd_array = upd f.fd_array fd (advance t (f.fd_array fd));
                  })))
      written_round one more (returned (p, rest)) h =
          let offset : ℕ = (f.fd_array fd).offset in
          let t : ℕ = least size (512 - (offset - offset / 512 * 512)) in
          one t (ground arith) (ground arith) (u32 (inode (size_at r) + t)) (
            card.sdwrite p (put_bytes (card.sdread p f.disk) (offset - offset / 512 * 512) buf 0 t)
              f.disk)
      written_round one more panicked h = tt
      written_round one more fault h = h
      written_round one more unfinished h = h
