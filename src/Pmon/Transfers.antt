-- ===== src/Pmon/Transfers.antt =====
-- sdread and sdwrite of arch/mips/pmon/common.c on a card of blocks.
use ucas_os.Common.{
  ℕ, zero, suc, ◌+◌, ◌-◌, ◌/◌, ◌%◌, ◌^◌, ◌≤◌, ◌<◌, ◌≡◌, ◌⊎◌, refl, inl, inr, arith, true, false,
  Bool-cases, ◌==◌, ltb, leb, ◌&&◌, if◌then◌else◌, some, ◌∙◌,
}
use ucas_os.Pmon.{Bytes, memcopy}
use ucas_os.Pmon.Copy.{memcopy-Bytes}
use ucas_os.Pmon.Card.{Firmware, u32, place, once_of, read_buffer, write_block, read_rounds}

abbrev pub AreBytes : Bytes → Type 0
AreBytes w = (i : ℕ) → w i < 256

-- What the code relies on: `content` is the card's blocks, byte by byte. A block is read as it is, and
-- write_block, which gets its answers from the card, ends with the block written and no other.
pub record Stores {D : Type 0} (fw : Firmware D) (wait : ℕ) (content : D → ℕ → ℕ → ℕ) : Type 0 where
  pub read : (b : ℕ) (d : D) (i : ℕ) → i < 512 → fw.read_single_block b d i ≡ content d b i
  pub write :
      (b : ℕ) (w : Bytes) (d : D)
      → AreBytes w
      → (r : ℕ) × (d' : D) × (write_block fw wait b w d ≡ some (r, d'))
        × ((c i : ℕ) → i < 512 → content d' c i ≡ (if c == b then w i else content d c i))

-- byte x of the card
abbrev pub byte : {D : Type 0} → (D → ℕ → ℕ → ℕ) → D → ℕ → ℕ
byte content d x = content d (x / 512) (x % 512)

abbrev pub Apart : ℕ → ℕ → ℕ → Type 0
Apart buf n a = (buf + n ≤ a) ⊎ (a + 512 ≤ buf)

pub once_le : (pos left : ℕ) → once_of pos left ≤ left
once_le pos left = ground arith

pub once_fits : (pos left : ℕ) → pos % 512 + once_of pos left ≤ 512
once_fits pos left = ground arith

pub once_pos : (pos left : ℕ) → (left == 0) ≡ false → 1 ≤ once_of pos left
once_pos pos left h = ground arith

pub block_at : (pos i : ℕ) → pos % 512 + i < 512 → (pos + i) / 512 ≡ pos / 512
block_at pos i h = omega arith

pub place_at : (pos i : ℕ) → pos % 512 + i < 512 → (pos + i) % 512 ≡ pos % 512 + i
place_at pos i h = omega arith

module _ {D : Type 0} (fw : Firmware D) (wait : ℕ) (content : D → ℕ → ℕ → ℕ)
    (stores : Stores fw wait content) where
  -- the memory after sdread: the bytes, and what else may have changed
  pub record ReadBytes (buf pos left : ℕ) (d : D) (m m' : Bytes) : Type 0 where
    pub got : (i : ℕ) → i < left → m' (buf + i) ≡ byte content d (pos + i)
    pub kept :
        (a : ℕ)
        → (a < buf) ⊎ (buf + left ≤ a)
        → (a < read_buffer) ⊎ (read_buffer + 512 ≤ a)
        → m' a ≡ m a

  read_kept :
      (buf pos left once : ℕ) (m : Bytes) (d : D) (a : ℕ)
      → once ≤ left
      → (a < buf) ⊎ (buf + left ≤ a)
      → (a < read_buffer) ⊎ (read_buffer + 512 ≤ a)
      → (if leb buf a && ltb a (buf + once)
          then place read_buffer 512
              (fw.read_single_block (pos / 512) d)
              m
              (read_buffer + pos % 512 + (a - buf))
          else place read_buffer 512 (fw.read_single_block (pos / 512) d) m a)
        ≡ m a
  read_kept buf pos left once m d a less f g =
      let out : (leb buf a && ltb a (buf + once)) ≡ false = ground arith in
      let out' : (leb read_buffer a && ltb a (read_buffer + 512)) ≡ false = ground arith in
      rw (out, out')

  -- the byte `i` of the round
  read_now :
      (buf pos once : ℕ) (m : Bytes) (d : D) (i : ℕ)
      → i < once
      → pos % 512 + once ≤ 512
      → memcopy buf
          (read_buffer + pos % 512)
          once
          (place read_buffer 512 (fw.read_single_block (pos / 512) d) m)
          (buf + i)
        ≡ byte content d (pos + i)
  read_now buf pos once m d i lt fits =
      let here : (leb buf (buf + i) && ltb (buf + i) (buf + once)) ≡ true = ground arith in
      let at : read_buffer + pos % 512 + ((buf + i) - buf) ≡ read_buffer + (pos % 512 + i) =
        omega arith in
      let inside : (leb read_buffer (read_buffer + (pos % 512 + i))
            && ltb (read_buffer + (pos % 512 + i)) (read_buffer + 512))
          ≡ true =
        ground arith in
      let off : (read_buffer + (pos % 512 + i)) - read_buffer ≡ pos % 512 + i = omega arith in
      memcopy-Bytes buf (read_buffer + pos % 512) once
        (place read_buffer 512 (fw.read_single_block (pos / 512) d) m) (buf + i)
      ∙ rw here (
          rw at (
            rw (inside, off)
              (stores.read (pos / 512) d (pos % 512 + i) (omega (arith, lt, fits))
                ∙ (rw (
                  block_at pos i (omega (arith, lt, fits)),
                  place_at pos i (omega (arith, lt, fits)),
                )))))

  read_got :
      (buf pos left once : ℕ) (m : Bytes) (d : D) (m' : Bytes) (i : ℕ)
      → i < left
      → pos % 512 + once ≤ 512
      → once ≤ left
      → Apart buf left read_buffer
      → ReadBytes
          (buf + once)
          (pos + once)
          (left - once)
          d
          (memcopy buf
            (read_buffer + pos % 512)
            once
            (place read_buffer 512 (fw.read_single_block (pos / 512) d) m))
          m'
      → m' (buf + i) ≡ byte content d (pos + i)
  read_got buf pos left once m d m' i lt fits less apart rest = elim (Bool-cases (ltb i once)) [
    | inl e ↦
        let now : i < once = ground arith in
        rest.kept (buf + i) (inl (omega (arith, now))) (omega (arith, apart, lt))
        ∙ read_now buf pos once m d i now fits
    | inr e ↦
        let j : buf + i ≡ (buf + once) + (i - once) = ground arith in
        let j' : pos + i ≡ (pos + once) + (i - once) = ground arith in
        rw (j, j') (rest.got (i - once) (ground (arith, lt)))
  ]

  read_step :
      (fuel buf pos left : ℕ) (m : Bytes) (d : D)
      → (left == 0) ≡ false
      → u32 (pos + once_of pos left) ≡ pos + once_of pos left
      → read_rounds fw (suc fuel) buf pos left m d
        ≡ read_rounds fw fuel
            (buf + once_of pos left)
            (pos + once_of pos left)
            (left - once_of pos left)
            (memcopy buf
              (read_buffer + pos % 512)
              (once_of pos left)
              (place read_buffer 512 (fw.read_single_block (pos / 512) d) m))
            d
  unfolding read_rounds
  read_step fuel buf pos left m d e same = rw (e, same)

  pub read_rounds-ReadBytes :
      (fuel buf pos left : ℕ) (m : Bytes) (d : D)
      → left ≤ fuel
      → pos + left < 2 ^ 32
      → Apart buf left read_buffer
      → (m' : Bytes) × (read_rounds fw fuel buf pos left m d ≡ some m')
        × ReadBytes buf pos left d m m'
  unfolding read_rounds
  read_rounds-ReadBytes zero buf pos left m d le small apart =
      let e : (left == 0) ≡ true = ground arith in
      (m, rw e, record { got = λ i lt. absurd (omega (arith, le, lt)); kept = λ a f g. refl })
  read_rounds-ReadBytes (suc fuel) buf pos left m d le small apart = elim (Bool-cases (left == 0)) [
    | inl e ↦ (m, rw e, record { got = λ i lt. absurd (ground (arith, lt)); kept = λ a f g. refl })
    | inr e ↦
        let once : ℕ = once_of pos left in
        let m₁ : Bytes = place read_buffer 512 (fw.read_single_block (pos / 512) d) m in
        let m₂ : Bytes = memcopy buf (read_buffer + pos % 512) once m₁ in
        let fits = once_fits pos left in
        let less = once_le pos left in
        let more = once_pos pos left e in
        let same : u32 (pos + once) ≡ pos + once = omega (arith, small, less) in
        let (m', r, rest) =
          read_rounds-ReadBytes fuel (buf + once) (pos + once) (left - once) m₂ d
            (omega (arith, le, more)) (omega (arith, small, less)) (omega (arith, apart, less)) in
        (
          m',
          read_step fuel buf pos left m d e same ∙ r,
          record {
            got = λ i lt. read_got buf pos left once m d m' i lt fits less apart rest;
            kept = λ a f g.
                rest.kept a (omega (arith, f, less)) g
                ∙ (memcopy-Bytes buf (read_buffer + pos % 512) once m₁ a
                    ∙ read_kept buf pos left once m d a less f g);
          },
        )
  ]
