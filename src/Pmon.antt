-- ===== src/Pmon.antt =====
-- arch/mips/pmon/common.c: what the kernel does with the firmware's routines and by itself.
--
-- `char` is unsigned here, and memory is a function from addresses to bytes.
pub mod Copy
pub mod Card
pub mod Transfers
pub mod Stored
pub mod Sample
mod Examples
use ucas_os.Common.{ℕ, zero, suc, ◌+◌, ◌-◌, ◌%◌, ◌==◌, ltb, if◌then◌else◌, upd}
use ucas_os.Kernel.{Kernel, set_result}
use ucas_os.Mac.{Bus}

module _ {B : Type 0} (bus : Bus B) where
  -- 0 when no character has come in
  unfoldable pub read_uart_ch : Kernel → B → Kernel × B
  read_uart_ch k b =
      let (status, b₁) = bus.load 0xbfe48005 b in
      let (ch, b₂) = bus.load 0xbfe48000 b₁ in
      if status % 2 == 0 then (set_result 0 k, b₁) else (set_result (ch % 256) k, b₂)

abbrev pub Bytes : Type 0
Bytes = ℕ → ℕ

-- the loop upwards
unfoldable pub copy_up : ℕ → ℕ → ℕ → Bytes → Bytes
copy_up zero t f m = m
copy_up (suc n) t f m = copy_up n (suc t) (suc f) (upd m t (m f))

-- and the loop downwards, from the ends
unfoldable pub copy_down : ℕ → ℕ → ℕ → Bytes → Bytes
copy_down zero t f m = m
copy_down (suc n) t f m = copy_down n (t - 1) (f - 1) (upd m (t - 1) (m (f - 1)))

unfoldable pub memcopy : ℕ → ℕ → ℕ → Bytes → Bytes
memcopy s1 s2 n m = if ltb s2 s1 then copy_down n (s1 + n) (s2 + n) m else copy_up n s1 s2 m
