-- ===== src/Fs/Growth.antt =====
-- What a round of fwrite's loop in kernel/fs/fs.c changes: the descriptor, and the room in the file.
use ucas_os.Common.{
  ℕ, zero, suc, ◌+◌, ◌-◌, ◌*◌, ◌^◌, ◌≤◌, ◌<◌, ◌≡◌, refl, ◌∙◌, subst, arith, upd, Option, none, some,
}
use ucas_os.Fs.{
  Words, Card, Fd, Fs, u32, sub32, darray_loop, darray_alloc, first_clear, load_smap, store_smap,
  set_bit, count_up, data_used,
}
use ucas_os.Fs.Layout.{size_allocated_at}
use ucas_os.Fs.Files.{Outcome, returned, panicked, fault, unfinished}
use ucas_os.Fs.Writing.{add_pointer}

-- of `size` bytes some were written after the first `written`, and the descriptor moved by as many
abbrev pub Written : {D : Type 0} → ℕ → ℕ → ℕ → Fs D → Outcome (Words × ℕ × Fs D) → Type 0
Written fd size written f (returned (inode, n, g)) =
    (written ≤ n)
    × (n ≤ written + size)
    × ((g.fd_array fd).offset ≡ u32 ((f.fd_array fd).offset + (n - written)))
Written fd size written f panicked = Unit {0}
Written fd size written f fault = ⊥
Written fd size written f unfinished = ⊥

-- what of the file is allocated behind the offset
abbrev pub room : Words → ℕ → ℕ → ℕ
room inode r offset = sub32 (inode (size_allocated_at r)) offset

-- the room after a round
pub room-add_pointer :
    (r p : ℕ) (inode : Words) (offset : ℕ)
    → offset < 2 ^ 32
    → room (add_pointer r p inode) r offset ≡ u32 (room inode r offset + 512)
room-add_pointer r p inode offset small = ground arith

pub room-advance :
    (a offset t : ℕ)
    → offset < 2 ^ 32
    → t ≤ sub32 a offset
    → sub32 a (u32 (offset + t)) ≡ sub32 a offset - t
room-advance a offset t small le = omega arith

module _ {D : Type 0} (card : Card D) where
  -- a part's search that came to `r`
  abbrev found_or_next : ℕ → Fs D → Option (ℕ × ℕ) → Option ℕ × Fs D
  found_or_next n f r = elim r [
    | none ↦ darray_loop card n (load_smap card (suc f.smap_index) f)
    | some (i, j) ↦ (
      some (f.smap_index * 512 * 8 + i * 32 + j),
      store_smap card (upd f.smap i (set_bit (f.smap i) j)) (count_up data_used f.super_block) f,
    )
  ]

  loop_fds : (n : ℕ) (f : Fs D) → (darray_loop card n f).1.fd_array ≡ f.fd_array
  unfolding darray_loop
  loop_fds zero f = refl
  loop_fds (suc n) f =
      by_case (first_clear 128 0 f.smap) (loop_fds n (load_smap card (suc f.smap_index) f))
    where
      by_case :
          (r : Option (ℕ × ℕ))
          → (darray_loop card n (load_smap card (suc f.smap_index) f)).1.fd_array ≡ f.fd_array
          → (found_or_next n f r).1.fd_array ≡ f.fd_array
      by_case none h = h
      by_case (some (i, j)) h = refl

  pub darray_alloc_fds : (f : Fs D) → (darray_alloc card f).1.fd_array ≡ f.fd_array
  unfolding darray_alloc
  darray_alloc_fds f = loop_fds (256 - f.smap_index) f

module _ {D : Type 0} where
  pub Written-zero :
      (inode : Words) (fd written : ℕ) (f : Fs D) (size : ℕ)
      → (f.fd_array fd).offset < 2 ^ 32
      → Written fd size written f (returned (inode, written, f))
  Written-zero inode fd written f size small = (omega arith, omega arith, omega arith)

  -- a round that writes `t` bytes, and one that only changes other things
  pub Written-later :
      (fd size written t : ℕ) (f f' : Fs D) (o : Outcome (Words × ℕ × Fs D))
      → t ≤ size
      → (f'.fd_array fd).offset ≡ u32 ((f.fd_array fd).offset + t)
      → Written fd (size - t) (written + t) f' o
      → Written fd size written f o
  Written-later fd size written t f f' (returned (inode, n, g)) le e (p, q, r) =
      (omega arith, omega arith, r ∙ omega arith)
  Written-later fd size written t f f' panicked le e h = tt
  Written-later fd size written t f f' fault le e h = h
  Written-later fd size written t f f' unfinished le e h = h

  pub Written-same :
      (fd size written : ℕ) (f f' : Fs D) (o : Outcome (Words × ℕ × Fs D))
      → f'.fd_array ≡ f.fd_array
      → Written fd size written f' o
      → Written fd size written f o
  Written-same fd size written f f' (returned (inode, n, g)) e (p, q, r) = (
    p,
    q,
    subst (λ (a : ℕ → Fd). (g.fd_array fd).offset ≡ u32 ((a fd).offset + (n - written))) e r,
  )
  Written-same fd size written f f' panicked e h = tt
  Written-same fd size written f f' fault e h = h
  Written-same fd size written f f' unfinished e h = h
