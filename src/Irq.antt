-- ===== src/Irq.antt =====
-- kernel/exception/irq.c: the interrupts.
pub mod Timer
mod Examples
use Prim.Native.Nat.{bit_or}
use ucas_os.Common.{ℕ, suc, ◌+◌, ◌-◌, ◌*◌, ◌/◌, ◌%◌, ◌^◌, ◌==◌, not, if◌then◌else◌}
use ucas_os.Kernel.{Kernel, Run, ok, panic, and_then, recv_block_queue}
use ucas_os.Queue.{queue_is_empty}
use ucas_os.Sched.{check_sleeping, scheduler, do_unblock_one, u32}
use ucas_os.Mac.{Bus, clear_dma_interrupt}

-- registers of include/exception/irq.h
abbrev pub int1_sr : ℕ
int1_sr = 0xbfd01058

abbrev pub int1_en : ℕ
int1_en = 0xbfd0105c

abbrev pub int1_clr : ℕ
int1_clr = 0xbfd01064

abbrev pub int1_pol : ℕ
int1_pol = 0xbfd01068

abbrev pub int1_edge : ℕ
int1_edge = 0xbfd0106c

-- bit i of a word
abbrev pub bit_of : ℕ → ℕ → ℕ
bit_of i w = w / 2 ^ i % 2

-- `do_scheduler` is the switch that `scheduler` decides, and set_timer sets a register of the
-- processor only
unfoldable pub irq_timer : Kernel → Run
irq_timer k =
    and_then (check_sleeping (record k { time_elapsed = u32 (suc k.time_elapsed) })) scheduler

module _ {B : Type 0} (bus : Bus B) where
  unfoldable pub int1_enable : ℕ → B → B
  int1_enable num b =
      let (old, b') = bus.load int1_en b in bus.store int1_en (bit_or old (2 ^ num)) b'

  unfoldable pub int1_init : B → B
  int1_init b =
      bus.store int1_edge 0 (bus.store int1_pol 0xffffffff (bus.store int1_clr 0xffffffff b))

  -- the run, and the device once it is acknowledged
  unfoldable pub irq_mac : Kernel → B → Run × B
  irq_mac k b = (
    if not (queue_is_empty recv_block_queue k) then do_unblock_one recv_block_queue k else ok k,
    clear_dma_interrupt bus b,
  )

  unfoldable pub irq_ip3_helper : Kernel → B → Run × B
  irq_ip3_helper k b =
      let (sr, b') = bus.load int1_sr b in if bit_of 3 sr == 0 then (panic, b') else irq_mac k b'

  -- ip[i] is bit 8 + i of the cause
  unfoldable pub interrupt_helper : Kernel → B → Run × B
  interrupt_helper k b =
      let cause = (k.pcb k.current_running).user_regs_context.cp0_cause in
      if not (bit_of 15 cause == 0)
      then (irq_timer k, b)
      else if not (bit_of 11 cause == 0)
      then irq_ip3_helper k b
      else (panic, b)
