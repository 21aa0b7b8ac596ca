-- ===== src/Fs/Reads.antt =====
-- fread of kernel/fs/fs.c ends, and what it counts is what it reads.
use ucas_os.Common.{
  ℕ, zero, suc, ◌+◌, ◌-◌, ◌*◌, ◌%◌, ◌^◌, ◌≤◌, ◌<◌, ◌≡◌, refl, sym, ap, ◌∙◌, true, not, ◌&&◌, arith,
  ◌==◌, List, [], ◌++◌, length, length-append, Bool-cases, inl, inr,
}
use ucas_os.Common.Int.{pos}
use ucas_os.Fs.{Words, Card, Fs, u32, sub32, sector_size}
use ucas_os.Fs.Layout.{bytes_at}
use ucas_os.Fs.Dirs.{read_inode}
use ucas_os.Fs.Files.{
  Outcome, returned, panicked, fault, unfinished, bind, o_rdwr, o_rd, offset_to_pointer, least,
  set_offset, read_loop, fread,
}

pub length-bytes_at : (w : Words) (o n : ℕ) → length (bytes_at w o n) ≡ n
unfolding bytes_at
length-bytes_at w o zero = refl
length-bytes_at w o (suc n) = ap suc (length-bytes_at w (suc o) n)

-- the offset within the sector is a remainder, or the offset is past the largest file
abbrev pub Located : ℕ → Outcome (ℕ × ℕ) → Type 0
Located offset (returned (p, rest)) = (rest ≡ offset % 512) × (offset < 2113674 * 512)
Located offset panicked = 2113674 * 512 ≤ offset
Located offset fault = ⊥
Located offset unfinished = ⊥

-- `total` bytes came, the descriptor moved by as many, and the card is as it was
abbrev pub Read : {D : Type 0} → ℕ → ℕ → Fs D → Outcome (List ℕ × Fs D) → Type 0
Read total fd f (returned (got, g)) =
    (length got ≡ total)
    × (g.fd_array fd ≡ record (f.fd_array fd) { offset = u32 ((f.fd_array fd).offset + total) })
    × (g.disk ≡ f.disk)
Read total fd f panicked = Unit {0}
Read total fd f fault = ⊥
Read total fd f unfinished = ⊥

-- `fread` as the descriptor allows it: never more than was asked for
abbrev pub ReadFile : {D : Type 0} → ℕ → ℕ → Fs D → Outcome (ℕ × List ℕ × Fs D) → Type 0
ReadFile fd size f (returned (n, got, g)) =
    (n ≤ size)
    × (length got ≡ n)
    × (g.disk ≡ f.disk)
    × (g.fd_array fd ≡ record (f.fd_array fd) { offset = u32 ((f.fd_array fd).offset + n) })
ReadFile fd size f panicked = Unit {0}
ReadFile fd size f fault = ⊥
ReadFile fd size f unfinished = ⊥

module _ {D : Type 0} (card : Card D) where
  -- offset_to_pointer panics exactly when the offset is past the largest file, of 2113674 sectors,
  -- and otherwise gives the offset within the sector as the remainder by 512.
  pub offset_to_pointer-Located :
      (inode : Words) (r offset : ℕ) (f : Fs D)
      → Located offset (offset_to_pointer card inode r offset f)
  unfolding offset_to_pointer
  offset_to_pointer-Located inode r offset f = ground arith

  -- what a round puts before the rest
  Read-append :
      (fd n total : ℕ) (got : List ℕ) (f : Fs D) (o : Outcome (List ℕ × Fs D))
      → length got ≡ n
      → Read (total - n) fd (set_offset fd (u32 ((f.fd_array fd).offset + n)) f) o
      → n ≤ total
      → Read total fd f (bind o (λ (rest, g). returned (got ++ rest, g)))
  Read-append fd n total got f (returned (rest, g)) e (l, file, disk) le =
      (omega (arith, length-append got rest), file ∙ ground arith, disk)
  Read-append fd n total got f panicked e h le = tt
  Read-append fd n total got f fault e h le = h
  Read-append fd n total got f unfinished e h le = h

  Read-zero :
      (fd total : ℕ) (f : Fs D)
      → total ≡ 0
      → (f.fd_array fd).offset < 2 ^ 32
      → Read total fd f (returned ([], f))
  Read-zero fd total f z small =
      let same : u32 ((f.fd_array fd).offset + total) ≡ (f.fd_array fd).offset = omega arith in
      (omega arith, ap (λ (o : ℕ). record (f.fd_array fd) { offset = o }) (sym same), refl)

  small_offset :
      (fd n : ℕ) (f : Fs D)
      → ((set_offset fd (u32 ((f.fd_array fd).offset + n)) f).fd_array fd).offset < 2 ^ 32
  small_offset fd n f =
      let lt : u32 ((f.fd_array fd).offset + n) < 2 ^ 32 = omega arith in
      let e : (fd == fd) ≡ true = ground arith in rw e lt

  -- The loop of `fread` ends: every round reads one byte at least. When it is not stopped by an offset
  -- past the largest file, it has read what was asked for.
  pub read_loop-Read :
      (fuel : ℕ) (inode : Words) (r fd total : ℕ) (f : Fs D)
      → total ≤ fuel
      → (f.fd_array fd).offset < 2 ^ 32
      → Read total fd f (read_loop card fuel inode r fd total f)
  unfolding read_loop
  read_loop-Read zero inode r fd total f le small =
      let e : (total == 0) ≡ true = ground arith in rw e (Read-zero fd total f (omega arith) small)
  read_loop-Read (suc fuel) inode r fd total f le small = elim (Bool-cases (total == 0)) [
    | inl e ↦ rw e (Read-zero fd total f (ground arith) small)
    | inr e ↦
        let more : 0 < total = ground arith in
        rw e (
          round more
            (λ n p.
              read_loop-Read fuel inode r fd (total - n)
                (set_offset fd (u32 ((f.fd_array fd).offset + n)) f) (omega arith)
                (small_offset fd n f))
            (offset_to_pointer card inode r (f.fd_array fd).offset f)
            (offset_to_pointer-Located inode r (f.fd_array fd).offset f))
  ]
    where
      round :
          0 < total
          → ((n : ℕ)
              → 0 < n
              → Read (total - n) fd (set_offset fd (u32 ((f.fd_array fd).offset + n)) f) (
                  read_loop card fuel inode r fd
                    (total - n)
                    (set_offset fd (u32 ((f.fd_array fd).offset + n)) f)))
          → (o : Outcome (ℕ × ℕ)) → Located (f.fd_array fd).offset o
          → Read total fd f (
              bind o (λ (p, rest).
                bind
                  (read_loop card fuel inode r fd (total - least total (sector_size - rest)) (
                    set_offset fd
                      (u32 ((f.fd_array fd).offset + least total (sector_size - rest)))
                      f))
                  (λ (tail, g). returned (
                    bytes_at (card.sdread p f.disk) rest (least total (sector_size - rest)) ++ tail,
                    g,
                  ))))
      round more rest_read (returned (p, rest)) (e, lt) =
          let n : ℕ = least total (sector_size - rest) in
          let some_bytes : 0 < n = ground arith in
          let at_most : n ≤ total = ground arith in
          Read-append fd n total (bytes_at (card.sdread p f.disk) rest n) f
            (read_loop card fuel inode r fd (total - n)
              (set_offset fd (u32 ((f.fd_array fd).offset + n)) f))
            (length-bytes_at (card.sdread p f.disk) rest n) (rest_read n some_bytes) at_most
      round more rest_read panicked h = tt
      round more rest_read fault h = h
      round more rest_read unfinished h = h

  -- fread of a descriptor with an offset below 2^32 never runs out of rounds: unless it panics it
  -- returns the number of bytes that it put into the buffer, at most the size asked for, moves the
  -- offset by as many modulo 2^32, changes nothing else of the descriptor, and leaves the card as
  -- it was.
  pub fread-ReadFile :
      (fd size : ℕ) (f : Fs D)
      → (f.fd_array fd).offset < 2 ^ 32
      → ReadFile fd size f (fread card (pos fd) size f)
  unfolding fread
  fread-ReadFile fd size f small =
      elim (Bool-cases
        (not ((f.fd_array fd).access == o_rdwr) && not ((f.fd_array fd).access == o_rd))) [
          | inl e ↦
              let (l, same, disk) = Read-zero fd 0 f refl small in
              rw e (omega arith, refl, refl, same)
          | inr e ↦
              let file = f.fd_array fd in
              let total = least (sub32 file.size file.offset) size in
              rw e (
                counted total (ground arith)
                  (read_loop card total (read_inode card file.ino f) (file.ino % 8) fd total f)
                  (read_loop-Read total (read_inode card file.ino f) (file.ino % 8) fd total f
                    (omega arith) small))
        ]
    where
      counted :
          (total : ℕ)
          → total ≤ size
          → (o : Outcome (List ℕ × Fs D)) → Read total fd f o
          → ReadFile fd size f (bind o (λ (got, g). returned (total, got, g)))
      counted total le (returned (got, g)) (l, file, disk) = (le, l, disk, file)
      counted total le panicked h = tt
      counted total le fault h = h
      counted total le unfinished h = h
