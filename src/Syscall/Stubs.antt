-- ===== src/Syscall/Stubs.antt =====
-- The user's side of the system calls (kernel/exception/syscall.c): each function hands its number
-- and three words to `invoke_syscall`, which puts them in the registers 4 to 7 and traps.
use ucas_os.Common.{ℕ}
use ucas_os.Syscall.Numbers.{
  ignore, syscall_show_process, syscall_spawn, syscall_kill, syscall_exit, syscall_wait,
  syscall_sleep, syscall_getpid, syscall_block, syscall_unblock_one, syscall_unblock_all,
  syscall_write, syscall_read, syscall_cursor, syscall_reflush, syscall_clear,
  syscall_mutex_lock_init, syscall_mutex_lock_acquire, syscall_mutex_lock_release,
  syscall_semaphore_init, syscall_semaphore_up, syscall_semaphore_down, syscall_cond_init,
  syscall_cond_wait, syscall_cond_signal, syscall_cond_broadcast, syscall_barrier_init,
  syscall_barrier_wait, syscall_init_mac, syscall_net_send, syscall_net_recv, syscall_wait_recv,
  syscall_mkfs, syscall_mount, syscall_statfs, syscall_get_dir_name, syscall_mkdir, syscall_rmdir,
  syscall_ls, syscall_cd, syscall_touch, syscall_fopen, syscall_fclose, syscall_fread,
  syscall_fwrite, syscall_fseek,
}

-- what `invoke_syscall` is given
pub record Invocation : Type 0 where
  pub fn : ℕ
  pub arg1 : ℕ
  pub arg2 : ℕ
  pub arg3 : ℕ

abbrev pub invoke_syscall : ℕ → ℕ → ℕ → ℕ → Invocation
invoke_syscall fn arg1 arg2 arg3 = record { fn = fn; arg1 = arg1; arg2 = arg2; arg3 = arg3 }

unfoldable pub sys_getpid : Invocation
sys_getpid = invoke_syscall syscall_getpid ignore ignore ignore

unfoldable pub barrier_init : ℕ → ℕ → Invocation
barrier_init barrier goal = invoke_syscall syscall_barrier_init barrier goal ignore

unfoldable pub barrier_wait : ℕ → Invocation
barrier_wait barrier = invoke_syscall syscall_barrier_wait barrier ignore ignore

unfoldable pub condition_init : ℕ → Invocation
condition_init condition = invoke_syscall syscall_cond_init condition ignore ignore

unfoldable pub condition_wait : ℕ → ℕ → Invocation
condition_wait condition lock = invoke_syscall syscall_cond_wait condition lock ignore

unfoldable pub condition_signal : ℕ → Invocation
condition_signal condition = invoke_syscall syscall_cond_signal condition ignore ignore

unfoldable pub condition_broadcast : ℕ → Invocation
condition_broadcast condition = invoke_syscall syscall_cond_broadcast condition ignore ignore

unfoldable pub semaphore_init : ℕ → ℕ → Invocation
semaphore_init s value = invoke_syscall syscall_semaphore_init s value ignore

unfoldable pub semaphore_up : ℕ → Invocation
semaphore_up s = invoke_syscall syscall_semaphore_up s ignore ignore

unfoldable pub semaphore_down : ℕ → Invocation
semaphore_down s = invoke_syscall syscall_semaphore_down s ignore ignore

unfoldable pub sys_spawn : ℕ → Invocation
sys_spawn task = invoke_syscall syscall_spawn task ignore ignore

unfoldable pub sys_kill : ℕ → Invocation
sys_kill pid = invoke_syscall syscall_kill pid ignore ignore

unfoldable pub sys_exit : Invocation
sys_exit = invoke_syscall syscall_exit ignore ignore ignore

unfoldable pub sys_wait : ℕ → Invocation
sys_wait pid = invoke_syscall syscall_wait pid ignore ignore

unfoldable pub sys_clear : ℕ → ℕ → Invocation
sys_clear line1 line2 = invoke_syscall syscall_clear line1 line2 ignore

unfoldable pub sys_show_process : Invocation
sys_show_process = invoke_syscall syscall_show_process ignore ignore ignore

unfoldable pub sys_sleep : ℕ → Invocation
sys_sleep time = invoke_syscall syscall_sleep time ignore ignore

unfoldable pub sys_write : ℕ → Invocation
sys_write buff = invoke_syscall syscall_write buff ignore ignore

unfoldable pub sys_read : Invocation
sys_read = invoke_syscall syscall_read ignore ignore ignore

unfoldable pub sys_reflush : Invocation
sys_reflush = invoke_syscall syscall_reflush ignore ignore ignore

unfoldable pub sys_move_cursor : ℕ → ℕ → Invocation
sys_move_cursor x y = invoke_syscall syscall_cursor x y ignore

unfoldable pub mutex_lock_init : ℕ → Invocation
mutex_lock_init lock = invoke_syscall syscall_mutex_lock_init lock ignore ignore

unfoldable pub mutex_lock_acquire : ℕ → Invocation
mutex_lock_acquire lock = invoke_syscall syscall_mutex_lock_acquire lock ignore ignore

unfoldable pub mutex_lock_release : ℕ → Invocation
mutex_lock_release lock = invoke_syscall syscall_mutex_lock_release lock ignore ignore

unfoldable pub sys_init_mac : Invocation
sys_init_mac = invoke_syscall syscall_init_mac ignore ignore ignore

unfoldable pub sys_net_send : Invocation
sys_net_send = invoke_syscall syscall_net_send ignore ignore ignore

unfoldable pub sys_net_recv : Invocation
sys_net_recv = invoke_syscall syscall_net_recv ignore ignore ignore

unfoldable pub sys_net_wait_recv : Invocation
sys_net_wait_recv = invoke_syscall syscall_wait_recv ignore ignore ignore

unfoldable pub sys_mkfs : Invocation
sys_mkfs = invoke_syscall syscall_mkfs ignore ignore ignore

unfoldable pub sys_mount : Invocation
sys_mount = invoke_syscall syscall_mount ignore ignore ignore

unfoldable pub sys_statfs : Invocation
sys_statfs = invoke_syscall syscall_statfs ignore ignore ignore

unfoldable pub sys_get_curr_dir_name : Invocation
sys_get_curr_dir_name = invoke_syscall syscall_get_dir_name ignore ignore ignore

unfoldable pub sys_mkdir : ℕ → Invocation
sys_mkdir s = invoke_syscall syscall_mkdir s ignore ignore

unfoldable pub sys_rmdir : ℕ → Invocation
sys_rmdir s = invoke_syscall syscall_rmdir s ignore ignore

unfoldable pub sys_ls : Invocation
sys_ls = invoke_syscall syscall_ls ignore ignore ignore

unfoldable pub sys_cd : ℕ → Invocation
sys_cd s = invoke_syscall syscall_cd s ignore ignore

unfoldable pub sys_touch : ℕ → Invocation
sys_touch s = invoke_syscall syscall_touch s ignore ignore

unfoldable pub sys_fopen : ℕ → ℕ → Invocation
sys_fopen s access = invoke_syscall syscall_fopen s access ignore

unfoldable pub sys_fclose : ℕ → Invocation
sys_fclose fd = invoke_syscall syscall_fclose fd ignore ignore

unfoldable pub sys_fread : ℕ → ℕ → ℕ → Invocation
sys_fread fd buf size = invoke_syscall syscall_fread fd buf size

unfoldable pub sys_fwrite : ℕ → ℕ → ℕ → Invocation
sys_fwrite fd buf size = invoke_syscall syscall_fwrite fd buf size

unfoldable pub sys_fseek : ℕ → ℕ → Invocation
sys_fseek fd offset = invoke_syscall syscall_fseek fd offset ignore

unfoldable pub sys_block : ℕ → Invocation
sys_block queue = invoke_syscall syscall_block queue ignore ignore

unfoldable pub sys_unblock_one : ℕ → Invocation
sys_unblock_one queue = invoke_syscall syscall_unblock_one queue ignore ignore

unfoldable pub sys_unblock_all : ℕ → Invocation
sys_unblock_all queue = invoke_syscall syscall_unblock_all queue ignore ignore
