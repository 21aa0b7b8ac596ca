-- ===== src/Pmon/Stored.antt =====
-- sdwrite of arch/mips/pmon/common.c, and sdread after it.
use ucas_os.Common.{
  ℕ, zero, suc, ◌+◌, ◌-◌, ◌*◌, ◌/◌, ◌%◌, ◌^◌, ◌≤◌, ◌<◌, ◌≡◌, ◌≢◌, ◌⊎◌, refl, inl, inr, arith, true,
  false, Bool-cases, ltb→lt, ◌==◌, ltb, leb, ◌&&◌, if◌then◌else◌, some, ◌∙◌, ap, sym, subst,
}
use ucas_os.Pmon.{Bytes, memcopy}
use ucas_os.Pmon.Copy.{memcopy-Bytes}
use ucas_os.Pmon.Card.{
  Firmware, u32, place, from, read_rounds, once_of, write_buffer, read_buffer, is_qemu, write_block,
  write_rounds, sdwrite, sdread,
}
use ucas_os.Pmon.Transfers.{
  Stores, AreBytes, byte, Apart, once_le, once_fits, once_pos, block_at, place_at,
  read_rounds-ReadBytes,
}

-- what a round leaves in memory
copied_bytes : (t f n : ℕ) (m : Bytes) → AreBytes m → AreBytes (memcopy t f n m)
copied_bytes t f n m h c =
    subst (λ v. v < 256) (sym (memcopy-Bytes t f n m c))
      (elim (Bool-cases (leb t c && ltb c (t + n))) [
        | inl e ↦ rw e (h (f + (c - t)))
        | inr e ↦ rw e (h c)
      ])

copied_outside :
    (pos buf once : ℕ) (m : Bytes) (a : ℕ)
    → pos % 512 + once ≤ 512
    → (a < write_buffer) ⊎ (write_buffer + 512 ≤ a)
    → memcopy (write_buffer + pos % 512) buf once m a ≡ m a
copied_outside pos buf once m a fits out =
    let far : (leb (write_buffer + pos % 512) a && ltb a (write_buffer + pos % 512 + once))
        ≡ false =
      ground arith in
    memcopy-Bytes (write_buffer + pos % 512) buf once m a ∙ (rw far)

copied_inside :
    (pos buf once : ℕ) (m : Bytes) (i : ℕ)
    → i < once
    → memcopy (write_buffer + pos % 512) buf once m (write_buffer + (pos % 512 + i)) ≡ m (buf + i)
copied_inside pos buf once m i lt =
    let here : (leb (write_buffer + pos % 512) (write_buffer + (pos % 512 + i))
          && ltb (write_buffer + (pos % 512 + i)) (write_buffer + pos % 512 + once))
        ≡ true =
      ground arith in
    let off : buf + ((write_buffer + (pos % 512 + i)) - (write_buffer + pos % 512)) ≡ buf + i =
      omega arith in
    memcopy-Bytes (write_buffer + pos % 512) buf once m (write_buffer + (pos % 512 + i))
    ∙ (rw here (rw off))

-- the block of a round is written by it alone
last_round :
    (pos left : ℕ)
    → (left - once_of pos left ≡ 0) ⊎ ((pos / 512 + 1) * 512 ≤ pos + once_of pos left)
last_round pos left = ground arith

same_test : (a : ℕ) → (a == a) ≡ true
same_test a = ground arith

other_test : (a b : ℕ) → a ≢ b → (a == b) ≡ false
other_test a b ne = ground arith

module _ {D : Type 0} (fw : Firmware D) (wait : ℕ) (content : D → ℕ → ℕ → ℕ)
    (stores : Stores fw wait content) where
  -- the card and the memory after sdwrite
  pub record WrittenBytes (buf pos left : ℕ) (m m' : Bytes) (d d' : D) : Type 0 where
    pub put : (i : ℕ) → i < left → byte content d' (pos + i) ≡ m (buf + i)
    pub kept :
        (b i : ℕ)
        → i < 512
        → (left ≡ 0) ⊎ (((b + 1) * 512 ≤ pos) ⊎ (pos + left ≤ b * 512))
        → content d' b i ≡ content d b i
    pub memory : (a : ℕ) → (a < write_buffer) ⊎ (write_buffer + 512 ≤ a) → m' a ≡ m a

  write_step :
      (fuel buf pos left : ℕ) (m : Bytes) (d : D) (r : ℕ) (d₁ : D)
      → (left == 0) ≡ false
      → u32 (pos + once_of pos left) ≡ pos + once_of pos left
      → write_block fw wait
          (pos / 512)
          (from write_buffer (memcopy (write_buffer + pos % 512) buf (once_of pos left) m))
          d
        ≡ some (r, d₁)
      → write_rounds fw wait (suc fuel) buf pos left m d
        ≡ write_rounds fw wait fuel
            (buf + once_of pos left)
            (pos + once_of pos left)
            (left - once_of pos left)
            (memcopy (write_buffer + pos % 512) buf (once_of pos left) m)
            d₁
  unfolding write_rounds
  write_step fuel buf pos left m d r d₁ e same w = rw e (rw w (rw same))

  put_now :
      (buf pos left : ℕ) (m : Bytes) (m' : Bytes) (d₁ d' : D) (i : ℕ)
      → i < once_of pos left
      → WrittenBytes
          (buf + once_of pos left)
          (pos + once_of pos left)
          (left - once_of pos left)
          (memcopy (write_buffer + pos % 512) buf (once_of pos left) m)
          m'
          d₁
          d'
      → content d₁ (pos / 512) (pos % 512 + i)
        ≡ memcopy
            (write_buffer + pos % 512)
            buf
            (once_of pos left)
            m
            (write_buffer + (pos % 512 + i))
      → byte content d' (pos + i) ≡ m (buf + i)
  put_now buf pos left m m' d₁ d' i lt rest now =
      let fits : pos % 512 + i < 512 = omega (arith, lt, once_fits pos left) in
      rw (block_at pos i fits, place_at pos i fits)
        (rest.kept (pos / 512) (pos % 512 + i) fits
            (elim (last_round pos left) [ inl z ↦ inl z | inr h ↦ inr (inl h) ])
          ∙ (now ∙ copied_inside pos buf (once_of pos left) m i lt))

  write_rounds-WrittenBytes :
      (fuel buf pos left : ℕ) (m : Bytes) (d : D)
      → left ≤ fuel
      → pos + left < 2 ^ 32
      → Apart buf left write_buffer
      → AreBytes m
      → (m' : Bytes) × (d' : D) × (write_rounds fw wait fuel buf pos left m d ≡ some (m', d'))
        × WrittenBytes buf pos left m m' d d'
  unfolding write_rounds
  write_rounds-WrittenBytes zero buf pos left m d le small apart bytes =
      let e : (left == 0) ≡ true = ground arith in
      (
        m,
        d,
        rw e,
        record {
          put = λ i lt. absurd (omega (arith, le, lt));
          kept = λ b i lt f. refl;
          memory = λ a f. refl;
        },
      )
  write_rounds-WrittenBytes (suc fuel) buf pos left m d le small apart bytes =
      elim (Bool-cases (left == 0)) [
        | inl e ↦ (
          m,
          d,
          rw e,
          record {
            put = λ i lt. absurd (ground (arith, lt));
            kept = λ b i lt f. refl;
            memory = λ a f. refl;
          },
        )
        | inr e ↦
            let once : ℕ = once_of pos left in
            let m₁ : Bytes = memcopy (write_buffer + pos % 512) buf once m in
            let fits = once_fits pos left in
            let less = once_le pos left in
            let more = once_pos pos left e in
            let same : u32 (pos + once) ≡ pos + once = omega (arith, small, less) in
            let bytes₁ = copied_bytes (write_buffer + pos % 512) buf once m bytes in
            let (r, d₁, w, law) =
              stores.write (pos / 512) (from write_buffer m₁) d (λ i. bytes₁ (write_buffer + i)) in
            let (m', d', s, rest) =
              write_rounds-WrittenBytes fuel (buf + once) (pos + once) (left - once) m₁ d₁
                (omega (arith, le, more)) (omega (arith, small, less)) (omega (arith, apart, less))
                bytes₁ in
            (
              m',
              d',
              write_step fuel buf pos left m d r d₁ e same w ∙ s,
              record {
                put = λ i lt. elim (Bool-cases (ltb i once)) [
                  | inl f ↦
                      let now : i < once = ltb→lt i once f in
                      put_now buf pos left m m' d₁ d' i now rest (
                        law (pos / 512) (pos % 512 + i) (omega (arith, now, fits))
                        ∙ (rw (same_test (pos / 512))))
                  | inr f ↦ put_later buf pos left once m d₁ d' m' i lt f fits apart rest
                ];
                kept = λ b i lt f.
                    rest.kept b i lt (omega (arith, f, less, more))
                    ∙ (law b i lt ∙ (rw (other_block b pos left e f)));
                memory = λ a f. rest.memory a f ∙ copied_outside pos buf once m a fits f;
              },
            )
      ]
    where
      apart_block :
          (b pos left : ℕ)
          → left ≢ 0
          → (left ≡ 0) ⊎ (((b + 1) * 512 ≤ pos) ⊎ (pos + left ≤ b * 512))
          → b ≢ pos / 512
      apart_block b pos left nz f eq = absurd (omega arith)

      other_block :
          (b pos left : ℕ)
          → (left == 0) ≡ false
          → (left ≡ 0) ⊎ (((b + 1) * 512 ≤ pos) ⊎ (pos + left ≤ b * 512))
          → (b == pos / 512) ≡ false
      other_block b pos left e f =
          other_test b (pos / 512) (apart_block b pos left (ground arith) f)

      put_later :
          (buf pos left once : ℕ) (m : Bytes) (d₁ d' : D) (m' : Bytes) (i : ℕ)
          → i < left
          → ltb i once ≡ false
          → pos % 512 + once ≤ 512
          → Apart buf left write_buffer
          → WrittenBytes
              (buf + once)
              (pos + once)
              (left - once)
              (memcopy (write_buffer + pos % 512) buf once m)
              m'
              d₁
              d'
          → byte content d' (pos + i) ≡ m (buf + i)
      put_later buf pos left once m d₁ d' m' i lt f fits apart rest =
          let j : buf + i ≡ (buf + once) + (i - once) = ground arith in
          let j' : pos + i ≡ (pos + once) + (i - once) = ground arith in
          rw j' (rest.put (i - once) (ground (arith, lt)))
          ∙ (ap (memcopy (write_buffer + pos % 512) buf once m) (sym j)
              ∙ copied_outside pos buf once m (buf + i) fits (omega (arith, apart, lt)))

  -- On real hardware and a card of blocks, with base + n below 2^32, memory of bytes, and the
  -- caller's two buffers apart from the two block buffers, sdwrite of n bytes ends with those
  -- bytes on the card, with every block that lies wholly outside of them kept, and with no memory
  -- changed but the block buffer; sdread of the same n bytes into any buffer then ends with the
  -- bytes in it, and with no other memory changed but the block buffer.
  pub sdread-sdwrite :
      (buf to base n : ℕ) (m : Bytes) (d : D)
      → is_qemu fw ≡ false
      → base + n < 2 ^ 32
      → Apart buf n write_buffer
      → Apart to n read_buffer
      → AreBytes m
      → (m₁ : Bytes) × (d₁ : D) × (m₂ : Bytes) × (sdwrite fw wait buf base n m d ≡ some (m₁, d₁))
        × (sdread fw to base n m₁ d₁ ≡ some m₂)
        × WrittenBytes buf base n m m₁ d d₁
        × ((i : ℕ) → i < n → m₂ (to + i) ≡ m (buf + i))
        × ((a : ℕ)
            → (a < to) ⊎ (to + n ≤ a)
            → (a < read_buffer) ⊎ (read_buffer + 512 ≤ a)
            → m₂ a ≡ m₁ a)
  unfolding sdwrite sdread
  sdread-sdwrite buf to base n m d real small apart apart' bytes =
      let (m₁, d₁, w, wrote) =
        write_rounds-WrittenBytes n buf base n m d (omega arith) small apart bytes in
      let (m₂, r, got) =
        read_rounds-ReadBytes fw wait content stores n to base n m₁ d₁ (omega arith) small apart' in
      (
        m₁,
        d₁,
        m₂,
        subst
            (λ q.
              (if q
                then some (m, fw.new_sdcard_write base n (from buf m) d)
                else write_rounds fw wait n buf base n m d)
              ≡ some (m₁, d₁))
            (sym real) w,
        subst
            (λ q.
              (if q
                then some (place to n (fw.new_sdcard_read base n d₁) m₁)
                else read_rounds fw n to base n m₁ d₁)
              ≡ some m₂)
            (sym real) r,
        wrote,
        λ i lt. got.got i lt ∙ wrote.put i lt,
        λ a f g. got.kept a f g,
      )
