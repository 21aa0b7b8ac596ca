-- ===== src/Syscall/Requests.antt =====
-- What a user can ask of the kernel: the functions of kernel/exception/syscall.c with their arguments,
-- as words, and the `switch` that tells from the registers which one was called.
use ucas_os.Common.{ℕ, ◌==◌, if◌then◌else◌, Option, none, some}
use ucas_os.Syscall.Numbers.{
  syscall_show_process, syscall_spawn, syscall_kill, syscall_exit, syscall_wait, syscall_sleep,
  syscall_getpid, syscall_write, syscall_read, syscall_cursor, syscall_reflush, syscall_clear,
  syscall_mutex_lock_init, syscall_mutex_lock_acquire, syscall_mutex_lock_release,
  syscall_semaphore_init, syscall_semaphore_up, syscall_semaphore_down, syscall_cond_init,
  syscall_cond_wait, syscall_cond_signal, syscall_cond_broadcast, syscall_barrier_init,
  syscall_barrier_wait, syscall_init_mac, syscall_net_send, syscall_net_recv, syscall_wait_recv,
  syscall_mkfs, syscall_mount, syscall_statfs, syscall_get_dir_name, syscall_mkdir, syscall_rmdir,
  syscall_ls, syscall_cd, syscall_touch, syscall_fopen, syscall_fclose, syscall_fread,
  syscall_fwrite, syscall_fseek,
}
use ucas_os.Syscall.Stubs

pub data Request : Type 0 where
  getpid : Request
  barrier_init : ℕ → ℕ → Request
  barrier_wait : ℕ → Request
  condition_init : ℕ → Request
  condition_wait : ℕ → ℕ → Request
  condition_signal : ℕ → Request
  condition_broadcast : ℕ → Request
  semaphore_init : ℕ → ℕ → Request
  semaphore_up : ℕ → Request
  semaphore_down : ℕ → Request
  spawn : ℕ → Request
  kill : ℕ → Request
  exit : Request
  wait : ℕ → Request
  clear : ℕ → ℕ → Request
  show_process : Request
  sleep : ℕ → Request
  write : ℕ → Request
  read : Request
  reflush : Request
  move_cursor : ℕ → ℕ → Request
  mutex_lock_init : ℕ → Request
  mutex_lock_acquire : ℕ → Request
  mutex_lock_release : ℕ → Request
  init_mac : Request
  net_send : Request
  net_recv : Request
  wait_recv : Request
  mkfs : Request
  mount : Request
  statfs : Request
  get_curr_dir_name : Request
  mkdir : ℕ → Request
  rmdir : ℕ → Request
  ls : Request
  cd : ℕ → Request
  touch : ℕ → Request
  fopen : ℕ → ℕ → Request
  fclose : ℕ → Request
  fread : ℕ → ℕ → ℕ → Request
  fwrite : ℕ → ℕ → ℕ → Request
  fseek : ℕ → ℕ → Request

-- the stub of each
unfoldable pub invoke : Request → Stubs.Invocation
unfolding Stubs.sys_getpid Stubs.barrier_init Stubs.barrier_wait Stubs.condition_init
    Stubs.condition_wait Stubs.condition_signal Stubs.condition_broadcast Stubs.semaphore_init
    Stubs.semaphore_up Stubs.semaphore_down Stubs.sys_spawn Stubs.sys_kill Stubs.sys_exit
    Stubs.sys_wait Stubs.sys_clear Stubs.sys_show_process Stubs.sys_sleep Stubs.sys_write
    Stubs.sys_read Stubs.sys_reflush Stubs.sys_move_cursor Stubs.mutex_lock_init
    Stubs.mutex_lock_acquire Stubs.mutex_lock_release Stubs.sys_init_mac Stubs.sys_net_send
    Stubs.sys_net_recv Stubs.sys_net_wait_recv Stubs.sys_mkfs Stubs.sys_mount Stubs.sys_statfs
    Stubs.sys_get_curr_dir_name Stubs.sys_mkdir Stubs.sys_rmdir Stubs.sys_ls Stubs.sys_cd
    Stubs.sys_touch Stubs.sys_fopen Stubs.sys_fclose Stubs.sys_fread Stubs.sys_fwrite
    Stubs.sys_fseek
invoke getpid = Stubs.sys_getpid
invoke (barrier_init barrier goal) = Stubs.barrier_init barrier goal
invoke (barrier_wait barrier) = Stubs.barrier_wait barrier
invoke (condition_init condition) = Stubs.condition_init condition
invoke (condition_wait condition lock) = Stubs.condition_wait condition lock
invoke (condition_signal condition) = Stubs.condition_signal condition
invoke (condition_broadcast condition) = Stubs.condition_broadcast condition
invoke (semaphore_init s value) = Stubs.semaphore_init s value
invoke (semaphore_up s) = Stubs.semaphore_up s
invoke (semaphore_down s) = Stubs.semaphore_down s
invoke (spawn task) = Stubs.sys_spawn task
invoke (kill pid) = Stubs.sys_kill pid
invoke exit = Stubs.sys_exit
invoke (wait pid) = Stubs.sys_wait pid
invoke (clear line1 line2) = Stubs.sys_clear line1 line2
invoke show_process = Stubs.sys_show_process
invoke (sleep time) = Stubs.sys_sleep time
invoke (write buff) = Stubs.sys_write buff
invoke read = Stubs.sys_read
invoke reflush = Stubs.sys_reflush
invoke (move_cursor x y) = Stubs.sys_move_cursor x y
invoke (mutex_lock_init lock) = Stubs.mutex_lock_init lock
invoke (mutex_lock_acquire lock) = Stubs.mutex_lock_acquire lock
invoke (mutex_lock_release lock) = Stubs.mutex_lock_release lock
invoke init_mac = Stubs.sys_init_mac
invoke net_send = Stubs.sys_net_send
invoke net_recv = Stubs.sys_net_recv
invoke wait_recv = Stubs.sys_net_wait_recv
invoke mkfs = Stubs.sys_mkfs
invoke mount = Stubs.sys_mount
invoke statfs = Stubs.sys_statfs
invoke get_curr_dir_name = Stubs.sys_get_curr_dir_name
invoke (mkdir s) = Stubs.sys_mkdir s
invoke (rmdir s) = Stubs.sys_rmdir s
invoke ls = Stubs.sys_ls
invoke (cd s) = Stubs.sys_cd s
invoke (touch s) = Stubs.sys_touch s
invoke (fopen s access) = Stubs.sys_fopen s access
invoke (fclose fd) = Stubs.sys_fclose fd
invoke (fread fd buf size) = Stubs.sys_fread fd buf size
invoke (fwrite fd buf size) = Stubs.sys_fwrite fd buf size
invoke (fseek fd offset) = Stubs.sys_fseek fd offset

-- the `switch`; `none` is the default, which panics
unfoldable pub requested : ℕ → ℕ → ℕ → ℕ → Option Request
requested fn arg1 arg2 arg3 =
    if fn == syscall_show_process
    then some show_process
    else if fn == syscall_spawn
    then some (spawn arg1)
    else if fn == syscall_kill
    then some (kill arg1)
    else if fn == syscall_exit
    then some exit
    else if fn == syscall_wait
    then some (wait arg1)
    else if fn == syscall_sleep
    then some (sleep arg1)
    else if fn == syscall_getpid
    then some getpid
    else if fn == syscall_write
    then some (write arg1)
    else if fn == syscall_read
    then some read
    else if fn == syscall_cursor
    then some (move_cursor arg1 arg2)
    else if fn == syscall_reflush
    then some reflush
    else if fn == syscall_clear
    then some (clear arg1 arg2)
    else if fn == syscall_mutex_lock_init
    then some (mutex_lock_init arg1)
    else if fn == syscall_mutex_lock_acquire
    then some (mutex_lock_acquire arg1)
    else if fn == syscall_mutex_lock_release
    then some (mutex_lock_release arg1)
    else if fn == syscall_semaphore_init
    then some (semaphore_init arg1 arg2)
    else if fn == syscall_semaphore_up
    then some (semaphore_up arg1)
    else if fn == syscall_semaphore_down
    then some (semaphore_down arg1)
    else if fn == syscall_cond_init
    then some (condition_init arg1)
    else if fn == syscall_cond_wait
    then some (condition_wait arg1 arg2)
    else if fn == syscall_cond_signal
    then some (condition_signal arg1)
    else if fn == syscall_cond_broadcast
    then some (condition_broadcast arg1)
    else if fn == syscall_barrier_init
    then some (barrier_init arg1 arg2)
    else if fn == syscall_barrier_wait
    then some (barrier_wait arg1)
    else if fn == syscall_init_mac
    then some init_mac
    else if fn == syscall_net_send
    then some net_send
    else if fn == syscall_net_recv
    then some net_recv
    else if fn == syscall_wait_recv
    then some wait_recv
    else if fn == syscall_mkfs
    then some mkfs
    else if fn == syscall_mount
    then some mount
    else if fn == syscall_statfs
    then some statfs
    else if fn == syscall_get_dir_name
    then some get_curr_dir_name
    else if fn == syscall_mkdir
    then some (mkdir arg1)
    else if fn == syscall_rmdir
    then some (rmdir arg1)
    else if fn == syscall_ls
    then some ls
    else if fn == syscall_cd
    then some (cd arg1)
    else if fn == syscall_touch
    then some (touch arg1)
    else if fn == syscall_fopen
    then some (fopen arg1 arg2)
    else if fn == syscall_fclose
    then some (fclose arg1)
    else if fn == syscall_fread
    then some (fread arg1 arg2 arg3)
    else if fn == syscall_fwrite
    then some (fwrite arg1 arg2 arg3)
    else if fn == syscall_fseek
    then some (fseek arg1 arg2)
    else none
