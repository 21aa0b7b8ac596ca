-- ===== src/Pmon/Card.antt =====
-- arch/mips/pmon/common.c: the SD card.
--
-- The firmware's routines work on the card, whose state is `D`; what they answer may depend on it.
use ucas_os.Common.{
  ℕ, zero, suc, ◌+◌, ◌-◌, ◌*◌, ◌/◌, ◌%◌, ◌^◌, Bool, ◌&&◌, ◌==◌, ltb, leb, if◌then◌else◌, Option,
  none, some,
}
use ucas_os.Pmon.{Bytes, memcopy}

pub record Firmware (D : Type 0) : Type 0 where
  -- what isQEMU finds at a fixed address
  pub word : ℕ
  -- new_sdcard_read and new_sdcard_write, which QEMU has
  pub new_sdcard_read : ℕ → ℕ → D → Bytes
  pub new_sdcard_write : ℕ → ℕ → Bytes → D → D
  -- Read_Single_Block, and the routines for the commands of the card
  pub read_single_block : ℕ → D → Bytes
  pub sd_cmd_write : ℕ → ℕ → D → ℕ × D
  pub flash_writeb_cmd : ℕ → D → D
  pub sd_write : ℕ → D → D
  pub sd_2byte_write : ℕ → D → D
  pub sd_read : D → ℕ × D
  pub set_cs : D → D

abbrev pub u32 : ℕ → ℕ
u32 n = n % 2 ^ 32

-- `n` bytes put to an address
abbrev pub place : ℕ → ℕ → Bytes → Bytes → Bytes
place a n b m c = if leb a c && ltb c (a + n) then b (c - a) else m c

-- the bytes from an address on
abbrev pub from : ℕ → Bytes → Bytes
from a m i = m (a + i)

-- the part of a block that a round moves
abbrev pub once_of : ℕ → ℕ → ℕ
once_of pos left = if ltb (512 - pos % 512) left then 512 - pos % 512 else left

abbrev pub write_buffer : ℕ
write_buffer = 0xa0100400

abbrev pub read_buffer : ℕ
read_buffer = 0xa0100200

module _ {D : Type 0} (fw : Firmware D) where
  unfoldable pub is_qemu : Bool
  is_qemu = fw.word == 0x27bdffa8

  -- command 24, `n` times at most
  unfoldable pub send_command : ℕ → ℕ → D → D
  send_command zero addr d = d
  send_command (suc n) addr d =
      let (response, d') = fw.sd_cmd_write 24 addr d in
      let rest = send_command n addr d' in if response == 0xff00 then d' else rest

  -- the data, `n` half words from the `t`-th on; of two bytes, the `|` is the sum
  unfoldable pub send_data : ℕ → ℕ → Bytes → D → D
  send_data zero t b d = d
  send_data (suc n) t b d =
      send_data n (suc t) b (fw.sd_2byte_write (b (2 * t) * 256 + b (2 * t + 1)) d)

  -- the wait for the card, for `fuel` answers at most
  unfoldable pub busy_wait : ℕ → D → Option D
  busy_wait zero d = none
  busy_wait (suc fuel) d =
      let (response, d') = fw.sd_read d in
      let rest = busy_wait fuel d' in if response == 0xffff then some d' else rest

  -- the result and the card
  unfoldable pub write_block : ℕ → ℕ → Bytes → D → Option (ℕ × D)
  write_block fuel addr b d =
      let d₁ = fw.sd_write 0xfe (fw.flash_writeb_cmd 0xff (send_command 10 addr d)) in
      let d₂ = fw.sd_2byte_write 0xffff (send_data 256 0 b d₁) in
      let (response, d₃) = fw.sd_read d₂ in
      elim (busy_wait fuel d₃) [
        | none ↦ none
        | some d₄ ↦ some (response, fw.flash_writeb_cmd 0xff (fw.set_cs d₄))
      ]

  -- the loop of sdwrite: the memory, in which the block is put together, and the card; `wait` is the
  -- fuel of write_block
  unfoldable pub write_rounds : ℕ → ℕ → ℕ → ℕ → ℕ → Bytes → D → Option (Bytes × D)
  write_rounds wait zero buf pos left m d = if left == 0 then some (m, d) else none
  write_rounds wait (suc fuel) buf pos left m d =
      let once = once_of pos left in
      let m₁ = memcopy (write_buffer + pos % 512) buf once m in
      let round : Option (Bytes × D) =
        elim (write_block wait (pos / 512) (from write_buffer m₁) d) [
          | none ↦ none
          | some (_, d₁) ↦
              write_rounds wait fuel (buf + once) (u32 (pos + once)) (left - once) m₁ d₁
        ] in
      if left == 0 then some (m, d) else round

  -- Every round moves a byte at least, so `n` rounds are enough.
  unfoldable pub sdwrite : ℕ → ℕ → ℕ → ℕ → Bytes → D → Option (Bytes × D)
  sdwrite wait buf base n m d =
      if is_qemu
      then some (m, fw.new_sdcard_write base n (from buf m) d)
      else write_rounds wait n buf base n m d

  -- the loop of sdread
  unfoldable pub read_rounds : ℕ → ℕ → ℕ → ℕ → Bytes → D → Option Bytes
  read_rounds zero buf pos left m d = if left == 0 then some m else none
  read_rounds (suc fuel) buf pos left m d =
      let once = once_of pos left in
      let m₁ = place read_buffer 512 (fw.read_single_block (pos / 512) d) m in
      let rest =
        read_rounds fuel (buf + once) (u32 (pos + once)) (left - once)
          (memcopy buf (read_buffer + pos % 512) once m₁) d in
      if left == 0 then some m else rest

  unfoldable pub sdread : ℕ → ℕ → ℕ → Bytes → D → Option Bytes
  sdread buf base n m d =
      if is_qemu
      then some (place buf n (fw.new_sdcard_read base n d) m)
      else read_rounds n buf base n m d
