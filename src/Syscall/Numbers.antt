-- ===== src/Syscall/Numbers.antt =====
-- The numbers of the system calls (include/exception/syscall.h).
use ucas_os.Common.{ℕ}

abbrev pub ignore : ℕ
ignore = 0

abbrev pub syscall_show_process : ℕ
syscall_show_process = 0

abbrev pub syscall_spawn : ℕ
syscall_spawn = 1

abbrev pub syscall_kill : ℕ
syscall_kill = 2

abbrev pub syscall_exit : ℕ
syscall_exit = 3

abbrev pub syscall_wait : ℕ
syscall_wait = 4

abbrev pub syscall_sleep : ℕ
syscall_sleep = 5

abbrev pub syscall_getpid : ℕ
syscall_getpid = 6

abbrev pub syscall_block : ℕ
syscall_block = 10

abbrev pub syscall_unblock_one : ℕ
syscall_unblock_one = 11

abbrev pub syscall_unblock_all : ℕ
syscall_unblock_all = 12

abbrev pub syscall_write : ℕ
syscall_write = 20

abbrev pub syscall_read : ℕ
syscall_read = 21

abbrev pub syscall_cursor : ℕ
syscall_cursor = 22

abbrev pub syscall_reflush : ℕ
syscall_reflush = 23

abbrev pub syscall_clear : ℕ
syscall_clear = 24

abbrev pub syscall_mutex_lock_init : ℕ
syscall_mutex_lock_init = 30

abbrev pub syscall_mutex_lock_acquire : ℕ
syscall_mutex_lock_acquire = 31

abbrev pub syscall_mutex_lock_release : ℕ
syscall_mutex_lock_release = 32

abbrev pub syscall_semaphore_init : ℕ
syscall_semaphore_init = 33

abbrev pub syscall_semaphore_up : ℕ
syscall_semaphore_up = 34

abbrev pub syscall_semaphore_down : ℕ
syscall_semaphore_down = 35

abbrev pub syscall_cond_init : ℕ
syscall_cond_init = 36

abbrev pub syscall_cond_wait : ℕ
syscall_cond_wait = 37

abbrev pub syscall_cond_signal : ℕ
syscall_cond_signal = 38

abbrev pub syscall_cond_broadcast : ℕ
syscall_cond_broadcast = 39

abbrev pub syscall_barrier_init : ℕ
syscall_barrier_init = 40

abbrev pub syscall_barrier_wait : ℕ
syscall_barrier_wait = 41

abbrev pub syscall_init_mac : ℕ
syscall_init_mac = 50

abbrev pub syscall_net_send : ℕ
syscall_net_send = 51

abbrev pub syscall_net_recv : ℕ
syscall_net_recv = 52

abbrev pub syscall_wait_recv : ℕ
syscall_wait_recv = 53

abbrev pub syscall_mkfs : ℕ
syscall_mkfs = 60

abbrev pub syscall_mount : ℕ
syscall_mount = 61

abbrev pub syscall_statfs : ℕ
syscall_statfs = 62

abbrev pub syscall_get_dir_name : ℕ
syscall_get_dir_name = 63

abbrev pub syscall_mkdir : ℕ
syscall_mkdir = 64

abbrev pub syscall_rmdir : ℕ
syscall_rmdir = 65

abbrev pub syscall_ls : ℕ
syscall_ls = 66

abbrev pub syscall_cd : ℕ
syscall_cd = 67

abbrev pub syscall_touch : ℕ
syscall_touch = 68

abbrev pub syscall_fopen : ℕ
syscall_fopen = 70

abbrev pub syscall_fclose : ℕ
syscall_fclose = 71

abbrev pub syscall_fread : ℕ
syscall_fread = 72

abbrev pub syscall_fwrite : ℕ
syscall_fwrite = 73

abbrev pub syscall_fseek : ℕ
syscall_fseek = 74
