-- ===== src/Syscall/Dispatch.antt =====
-- The user's functions of kernel/exception/syscall.c and system_call_helper fit together.
use ucas_os.Common.{ℕ, ◌==◌, ◌≡◌, refl, upd, Option, some, true, arith, ap, ◌∙◌}
use ucas_os.Kernel.{RegsContext}
use ucas_os.Syscall.Stubs
use ucas_os.Syscall.Stubs.{Invocation, sys_block, sys_unblock_one, sys_unblock_all}
use ucas_os.Syscall.Requests.{
  Request, requested, invoke, getpid, barrier_init, barrier_wait, condition_init, condition_wait,
  condition_signal, condition_broadcast, semaphore_init, semaphore_up, semaphore_down, spawn, kill,
  exit, wait, clear, show_process, sleep, write, read, reflush, move_cursor, mutex_lock_init,
  mutex_lock_acquire, mutex_lock_release, init_mac, net_send, net_recv, wait_recv, mkfs, mount,
  statfs, get_curr_dir_name, mkdir, rmdir, ls, cd, touch, fopen, fclose, fread, fwrite, fseek,
}
use ucas_os.Syscall.Machine.{Platform, Machine, panics, with_kernel}
use ucas_os.Syscall.Serve.{serve, skip_trap, answer, system_call_helper}

-- the trap of invoke_syscall: the four words are in the registers 4 to 7 of the running task
abbrev pub arguments : Invocation → RegsContext → RegsContext
arguments i c = record c { regs = upd (upd (upd (upd c.regs 4 i.fn) 5 i.arg1) 6 i.arg2) 7 i.arg3 }

abbrev pub trapped : {D B : Type 0} → Invocation → Machine D B → Machine D B
trapped i m =
    let k = m.kernel in
    let c = k.current_running in
    with_kernel m (record k {
      pcb =
          upd k.pcb c
            (record (k.pcb c) { user_regs_context = arguments i (k.pcb c).user_regs_context });
    })

requested-invoke :
    (r : Request) → requested (invoke r).fn (invoke r).arg1 (invoke r).arg2 (invoke r).arg3 ≡ some r
unfolding requested invoke Stubs.sys_getpid Stubs.barrier_init Stubs.barrier_wait
    Stubs.condition_init Stubs.condition_wait Stubs.condition_signal Stubs.condition_broadcast
    Stubs.semaphore_init Stubs.semaphore_up Stubs.semaphore_down Stubs.sys_spawn Stubs.sys_kill
    Stubs.sys_exit Stubs.sys_wait Stubs.sys_clear Stubs.sys_show_process Stubs.sys_sleep
    Stubs.sys_write Stubs.sys_read Stubs.sys_reflush Stubs.sys_move_cursor Stubs.mutex_lock_init
    Stubs.mutex_lock_acquire Stubs.mutex_lock_release Stubs.sys_init_mac Stubs.sys_net_send
    Stubs.sys_net_recv Stubs.sys_net_wait_recv Stubs.sys_mkfs Stubs.sys_mount Stubs.sys_statfs
    Stubs.sys_get_curr_dir_name Stubs.sys_mkdir Stubs.sys_rmdir Stubs.sys_ls Stubs.sys_cd
    Stubs.sys_touch Stubs.sys_fopen Stubs.sys_fclose Stubs.sys_fread Stubs.sys_fwrite
    Stubs.sys_fseek
requested-invoke getpid = refl
requested-invoke (barrier_init barrier goal) = refl
requested-invoke (barrier_wait barrier) = refl
requested-invoke (condition_init condition) = refl
requested-invoke (condition_wait condition lock) = refl
requested-invoke (condition_signal condition) = refl
requested-invoke (condition_broadcast condition) = refl
requested-invoke (semaphore_init s value) = refl
requested-invoke (semaphore_up s) = refl
requested-invoke (semaphore_down s) = refl
requested-invoke (spawn task) = refl
requested-invoke (kill pid) = refl
requested-invoke exit = refl
requested-invoke (wait pid) = refl
requested-invoke (clear line1 line2) = refl
requested-invoke show_process = refl
requested-invoke (sleep time) = refl
requested-invoke (write buff) = refl
requested-invoke read = refl
requested-invoke reflush = refl
requested-invoke (move_cursor x y) = refl
requested-invoke (mutex_lock_init lock) = refl
requested-invoke (mutex_lock_acquire lock) = refl
requested-invoke (mutex_lock_release lock) = refl
requested-invoke init_mac = refl
requested-invoke net_send = refl
requested-invoke net_recv = refl
requested-invoke wait_recv = refl
requested-invoke mkfs = refl
requested-invoke mount = refl
requested-invoke statfs = refl
requested-invoke get_curr_dir_name = refl
requested-invoke (mkdir s) = refl
requested-invoke (rmdir s) = refl
requested-invoke ls = refl
requested-invoke (cd s) = refl
requested-invoke (touch s) = refl
requested-invoke (fopen s access) = refl
requested-invoke (fclose fd) = refl
requested-invoke (fread fd buf size) = refl
requested-invoke (fwrite fd buf size) = refl
requested-invoke (fseek fd offset) = refl

current_regs :
    {D B : Type 0} (i : Invocation) (m : Machine D B)
    → ((trapped i m).kernel.pcb (trapped i m).kernel.current_running).user_regs_context
      ≡ arguments i (m.kernel.pcb m.kernel.current_running).user_regs_context
current_regs i m =
    let e : (m.kernel.current_running == m.kernel.current_running) ≡ true = ground arith in rw e

module _ {D B : Type 0} (p : Platform D B) where
  helper_answer :
      (i : Invocation) (m : Machine D B)
      → system_call_helper p (trapped i m)
        ≡ answer p (requested i.fn i.arg1 i.arg2 i.arg3) (trapped i m)
  unfolding system_call_helper
  helper_answer i m =
      ap
        (λ (c : RegsContext).
          answer p (requested (c.regs 4) (c.regs 5) (c.regs 6) (c.regs 7)) (trapped i m))
        (current_regs i m)

  -- A call of any of the functions of syscall.c but sys_block, sys_unblock_one and sys_unblock_all
  -- is served as that call, with the arguments given, once the trap is skipped.
  pub system_call_helper-invoke :
      (r : Request) (m : Machine D B)
      → let m' = trapped (invoke r) m in
        system_call_helper p m' ≡ serve p r (with_kernel m' (skip_trap m'.kernel))
  unfolding answer
  system_call_helper-invoke r m =
      helper_answer (invoke r) m
      ∙ ap (λ (o : Option Request). answer p o (trapped (invoke r) m)) (requested-invoke r)

  -- sys_block, sys_unblock_one and sys_unblock_all always panic.
  pub system_call_helper-panics :
      (queue : ℕ) (m : Machine D B)
      → (system_call_helper p (trapped (sys_block queue) m) ≡ panics)
        × (system_call_helper p (trapped (sys_unblock_one queue) m) ≡ panics)
        × (system_call_helper p (trapped (sys_unblock_all queue) m) ≡ panics)
  unfolding answer requested sys_block sys_unblock_one sys_unblock_all
  system_call_helper-panics queue m = (
    helper_answer (sys_block queue) m,
    helper_answer (sys_unblock_one queue) m,
    helper_answer (sys_unblock_all queue) m,
  )
