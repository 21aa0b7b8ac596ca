-- ===== src/Mac.antt =====
-- drivers/mac.c: the registers of the network controller, its descriptors and its buffers.
--
-- A load of a device register may change the device: `Bus` stands for the device, and says what a
-- load gives and what a load or a store leaves.
pub mod Rings
pub mod Buffers
mod Examples
use Prim.Native.Nat.{bit_or}
use ucas_os.Common.{
  ℕ, zero, suc, ◌+◌, ◌-◌, ◌*◌, ◌/◌, ◌%◌, ◌^◌, ◌==◌, not, if◌then◌else◌, upd, Option, none, some,
  List, [], ◌∷◌,
}
use ucas_os.Kernel.{Kernel, Run, ok, recv_block_queue, task_blocked}
use ucas_os.Queue.{queue_is_empty}
use ucas_os.Sched.{do_wait, do_unblock_one}

pub record Bus (B : Type 0) : Type 0 where
  pub load : ℕ → B → ℕ × B
  pub store : ℕ → ℕ → B → B

-- desc_t
pub record Desc : Type 0 where
  pub des0 : ℕ
  pub des1 : ℕ
  pub des2 : ℕ
  pub des3 : ℕ

-- where the linker puts the arrays
pub record Addresses : Type 0 where
  pub tdesc : ℕ
  pub tbuffer : ℕ
  pub rdesc : ℕ
  pub rbuffer : ℕ

abbrev pub tdesc_length : ℕ
tdesc_length = 64

abbrev pub tbuffer_size : ℕ
tbuffer_size = 1024

abbrev pub rbuffer_size : ℕ
rbuffer_size = 2047

-- sizeof(desc_t)
abbrev pub desc_size : ℕ
desc_size = 16

abbrev pub gmac_base_addr : ℕ
gmac_base_addr = 0xbfe10000

abbrev pub dma_base_addr : ℕ
dma_base_addr = 0xbfe11000

-- offsets of include/drivers
abbrev pub gmac_addr0_high : ℕ
gmac_addr0_high = 0x40

abbrev pub gmac_addr0_low : ℕ
gmac_addr0_low = 0x44

abbrev pub dma_status : ℕ
dma_status = 0x14

abbrev pub dma_control : ℕ
dma_control = 0x18

-- x & 0x1fffffff
abbrev pub phy_addr : ℕ → ℕ
phy_addr x = x % 2 ^ 29

-- byte i of a word
abbrev pub byte_of : ℕ → ℕ → ℕ
byte_of i w = w / 256 ^ i % 256

module _ {B : Type 0} (bus : Bus B) where
  unfoldable pub reg_read_32 : ℕ → B → ℕ × B
  reg_read_32 addr b = bus.load addr b

  unfoldable pub read_register : ℕ → ℕ → B → ℕ × B
  read_register base offset b = bus.load (base + offset) b

  unfoldable pub reg_write_32 : ℕ → ℕ → B → B
  reg_write_32 addr v b = bus.store addr v b

  -- reg_write_32(addr, reg_read_32(addr) | v)
  abbrev pub set_bits : ℕ → ℕ → B → B
  set_bits addr v b = let (old, b') = reg_read_32 addr b in reg_write_32 addr (bit_or old v) b'

  -- the six bytes
  unfoldable pub gmac_get_mac_addr : B → List ℕ × B
  gmac_get_mac_addr b =
      let (low, b₁) = read_register gmac_base_addr gmac_addr0_low b in
      let (high, b₂) = read_register gmac_base_addr gmac_addr0_high b₁ in
      (
        byte_of 0 low
            ∷ byte_of 1 low
            ∷ byte_of 2 low
            ∷ byte_of 3 low
            ∷ byte_of 0 high
            ∷ byte_of 1 high
            ∷ [],
        b₂,
      )

  unfoldable pub set_sram_ctr : B → B
  set_sram_ctr b = bus.store 0xbfd00420 0x8000 b

  -- the wait for the reset bit to fall, for `fuel` loads at most
  unfoldable pub reset_wait : ℕ → B → Option B
  reset_wait zero b = none
  reset_wait (suc fuel) b =
      let (v, b') = reg_read_32 dma_base_addr b in
      let rest = reset_wait fuel b' in if v % 2 == 0 then some b' else rest

  unfoldable pub mac_reset : ℕ → B → Option B
  mac_reset fuel b = reset_wait fuel (reg_write_32 dma_base_addr 1 b)

  unfoldable pub disable_dma_int : B → B
  disable_dma_int b = reg_write_32 (dma_base_addr + 28) 0 b

  unfoldable pub enable_dma_int : B → B
  enable_dma_int b = reg_write_32 (dma_base_addr + 28) 0x10041 b

  -- the bytes 0x00, 0x55, 0x7b, 0xb5, 0x7d, 0xf7
  unfoldable pub set_mac_addr : B → B
  set_mac_addr b =
      let high = bit_or (0xf7 * 256) 0x7d in
      let low = bit_or (bit_or (bit_or (0xb5 * 2 ^ 24) (0x7b * 2 ^ 16)) (0x55 * 256)) 0 in
      reg_write_32 (gmac_base_addr + 0x44) low (reg_write_32 (gmac_base_addr + 0x40) high b)

  unfoldable pub clear_dma_interrupt : B → B
  clear_dma_interrupt b =
      let (v, b') = reg_read_32 (dma_base_addr + dma_status) b in
      reg_write_32 (dma_base_addr + dma_status) v b'

  unfoldable pub mii_dul_force : B → B
  mii_dul_force b =
      let (v, b₁) = reg_read_32 gmac_base_addr (reg_write_32 dma_base_addr 0 b) in
      let b₂ = reg_write_32 gmac_base_addr (bit_or (bit_or v 0xc800) (2 ^ 8)) b₁ in
      set_bits (gmac_base_addr + 4) 0x80000001 b₂

  unfoldable pub dma_control_init : ℕ → B → B
  dma_control_init init_value b = reg_write_32 (dma_base_addr + dma_control) init_value b

  -- the loop of stores that start the DMA
  unfoldable pub kick : ℕ → ℕ → B → B
  kick zero addr b = b
  kick (suc n) addr b = kick n addr (reg_write_32 addr 1 b)

-- d[i].des0 = 0x80000000
abbrev pub own : Desc → Desc
own d = record d { des0 = 2 ^ 31 }

-- the loop over the descriptors, `n` rounds from `i`
unfoldable pub own_loop : ℕ → ℕ → (ℕ → Desc) → ℕ → Desc
own_loop zero i d = d
own_loop (suc n) i d = own_loop n (suc i) (upd d i (own (d i)))

module _ {B : Type 0} (bus : Bus B) (at : Addresses) where
  unfoldable pub do_net_send : (ℕ → Desc) → B → (ℕ → Desc) × B
  do_net_send tdesc b =
      let b₁ = reg_write_32 bus (dma_base_addr + 16) (phy_addr at.tdesc) b in
      let b₂ = set_bits bus (dma_base_addr + 24) 0x02202000 b₁ in
      (own_loop tdesc_length 0 tdesc, kick bus 64 (dma_base_addr + 4) b₂)

  unfoldable pub do_net_recv : (ℕ → Desc) → B → (ℕ → Desc) × B
  do_net_recv rdesc b =
      let b₁ = reg_write_32 bus (dma_base_addr + 12) (phy_addr at.rdesc) b in
      let b₂ = set_bits bus (dma_base_addr + 24) 0x02200002 b₁ in
      (own_loop tdesc_length 0 rdesc, kick bus 64 (dma_base_addr + 8) b₂)

unfoldable pub do_wait_recv_package : Kernel → Run
do_wait_recv_package k = do_wait k.current_running recv_block_queue task_blocked k

-- the last descriptor has come back from the controller
unfoldable pub check_recv : (ℕ → Desc) → Kernel → Run
check_recv rdesc k =
    if queue_is_empty recv_block_queue k
    then ok k
    else if (rdesc 63).des0 / 2 ^ 31 == 0
    then do_unblock_one recv_block_queue k
    else ok k

-- the loop of send_desc_init and recv_desc_init, `n` rounds from `i`; `flags` is des1, `buffer` and
-- `size` the buffers, and `ring` the descriptors' address
unfoldable pub link_loop : ℕ → ℕ → ℕ → ℕ → ℕ → ℕ → (ℕ → Desc) → ℕ → Desc
link_loop zero i flags buffer size ring d = d
link_loop (suc n) i flags buffer size ring d = link_loop n (suc i) flags buffer size ring (
    upd d i (record {
      des0 = 0;
      des1 = flags;
      des2 = phy_addr (buffer + i * size);
      des3 = phy_addr (ring + suc i * desc_size);
    }))

module _ (at : Addresses) where
  unfoldable pub send_desc_init : (ℕ → Desc) → ℕ → Desc
  send_desc_init d = upd (link_loop 63 0 0x61000400 at.tbuffer tbuffer_size at.tdesc d) 63 (record {
    des0 = 0;
    des1 = 0x63000400;
    des2 = phy_addr (at.tbuffer + 63 * tbuffer_size);
    des3 = phy_addr at.tdesc;
  })

  unfoldable pub recv_desc_init : (ℕ → Desc) → ℕ → Desc
  recv_desc_init d = upd (link_loop 63 0 0x010007ff at.rbuffer rbuffer_size at.rdesc d) 63 (record {
    des0 = 0;
    des1 = 0x030007ff;
    des2 = phy_addr (at.rbuffer + 63 * rbuffer_size);
    des3 = phy_addr at.rdesc;
  })

-- The words of memory: the word at an address is `m` at a quarter of it.
--
-- The inner loop of set_buffer: `n` words from the word `s` to the word `t`.
unfoldable pub copy_words : ℕ → ℕ → ℕ → (ℕ → ℕ) → ℕ → ℕ
copy_words zero t s m = m
copy_words (suc n) t s m = copy_words n (suc t) (suc s) (upd m t (m s))

-- the outer loop: `data` is at its start again in every round
unfoldable pub set_packets : ℕ → ℕ → ℕ → (ℕ → ℕ) → ℕ → ℕ
set_packets zero t s m = m
set_packets (suc n) t s m = set_packets n (t + 256) s (copy_words 256 t s m)

-- `none` is the panic; the data is word-aligned
unfoldable pub set_buffer : ℕ → ℕ → (ℕ → ℕ) → Option (ℕ → ℕ)
set_buffer buffer s m =
    if not (buffer % 4 == 0) then none else some (set_packets 64 (buffer / 4) (s / 4) m)

-- the inner loop of empty_buffer, and below it the outer one
unfoldable pub zero_words : ℕ → ℕ → (ℕ → ℕ) → ℕ → ℕ
zero_words zero t m = m
zero_words (suc n) t m = zero_words n (suc t) (upd m t 0)

unfoldable pub zero_packets : ℕ → ℕ → (ℕ → ℕ) → ℕ → ℕ
zero_packets zero t m = m
zero_packets (suc n) t m = zero_packets n (t + 256) (zero_words 256 t m)

unfoldable pub empty_buffer : ℕ → (ℕ → ℕ) → Option (ℕ → ℕ)
empty_buffer buffer m =
    if not (buffer % 4 == 0) then none else some (zero_packets 64 (buffer / 4) m)
