-- ===== src/Lib.antt =====
-- A verification library for UCAS_OS, a teaching kernel for a MIPS machine.
--
-- The program.  _start sets up the memory, the first two tasks and the file system. Tasks have control blocks, which stand in doubly linked queues: the ready queue, the
-- sleep queue, and one queue in each lock, semaphore, condition, barrier and control block. A system
-- call of the running task changes these objects and may move tasks between queues; the scheduler
-- then chooses among the ready ones. Numbers of processes and descriptors come from a static free
-- list. The file system lies on an SD card, which it reads and writes by sectors, and keeps the
-- current directory, two bit maps and the super block in memory.
--
-- Which file models which part (paths from the repository's root):
--   Slist     libs/slist.c           slist_init, slist_alloc, slist_free, slist_is_valid
--   Kernel    include/sched/sched.h, include/sync, include/mm/memory.h   pcb_t and the globals
--   Queue     kernel/sched/queue.c   every function; Queue.Linked says what a queue stands for
--   Sched     kernel/sched/sched.c   do_sleep, check_sleeping, scheduler, do_wait, do_unblock_one,
--             do_unblock_all; kernel/sched/time.c   get_ticks, get_timer
--   Process   kernel/sched/sched.c   init_pcb, kill, exit, wait, do_getpid, show_process
--   Sync      kernel/lock            every function of lock.c, cond.c, sem.c and barrier.c
--   Strings   libs/string.c          strlen, strcmp, strcpy, memset, separate
--   Fs        kernel/fs/fs.c         the state and both bit maps; Fs.Layout the structs of
--             include/fs/fs.h in a sector; Fs.Mount mkfs, mount, statfs, cd and ls; Fs.Dirs
--             parse_path, mkdir, touch and rmdir; Fs.Files fopen, fclose, fread and fseek;
--             Fs.Writing fwrite
--   Mailbox   libs/mailbox.c         every function; Mailbox.Ring says what a box holds
--   Memory    kernel/mm/memory.c     the allocators of frames, page tables and the swap area
--   Screen    drivers/screen.c       every function; Screen.Refresh has the terminal at the other end
--   Mac       drivers/mac.c          every function, over a device `Mac.Bus`
--   Pmon      arch/mips/pmon/common.c   read_uart_ch, memcopy; Pmon.Card isQEMU, write_block, sdread
--             and sdwrite
--   Irq       kernel/exception/irq.c   interrupt_helper and what it calls, int1_enable, int1_init
--   Syscall   kernel/exception/syscall.c   Syscall.Stubs the functions of the user's side,
--             Syscall.Requests the switch, Syscall.Machine the state of the whole kernel,
--             Syscall.Serve the handlers and system_call_helper; printks of libs/printk.c
--   Shell     kernel/software/shell.c   atoi, the commands and the line that is typed
--   Init      init/main.c            init_task, init_memory, init_driver, init_file_system
--   Common    lists, tests, stores and signed numbers, for all of them
--   Fixture   a small machine, and the modules named Examples, on which the theorems are tried
--
-- How the state corresponds.  A pointer to a control block is a number, 0 is NULL, and the fields of
-- the blocks are one function from pointers: aliasing is as in C. A queue is known by a number made
-- from that of the object it lies in. A kernel function returns `ok` with the state after it, or
-- `panic`, `diverges` (a loop without end) or `fault` (a pointer that was never set). A call that may
-- wait returns `waits` with the state at the switch, or `returns`. Registers, priorities and times
-- are natural numbers, and uint32_t arithmetic of the file system is taken modulo 2^32; `int` fields
-- that may be negative are signed.
--
-- Bounds and fuel.  A walk over a queue has a fuel of 17, one more than the 16 control blocks, and a
-- queue that is in order holds each block at most once. The loop of fread has as many rounds as
-- bytes, since a round reads one at least, and that of fwrite twice as many: a round writes a byte,
-- or adds a block, which makes room for more of the bytes that are left. The walk along a path has
-- one round more than the path has bytes, and each part of it takes one at least.
--
-- The loops of sdread and sdwrite have as many rounds as bytes, and the waits for a device have the
-- number of answers that it takes at most.
--
-- Specifications.  `Sched.Steps` says what the functions on tasks promise: a relation `Step` between
-- places, lists of tasks by queue, in which a ready task goes to the end of another queue or a task of
-- another queue to the end of the ready one. `Running` is the state between two functions, with the
-- queues in order and the running task ready; `Refines` says of a run that it ends in such a state,
-- which steps lead to, or stops the machine for want of a ready task. The same is shown for the
-- functions of kernel/lock (Sync.Steps), the interrupts (Irq.Timer) and the system calls
-- (Syscall.Refinement), and Init.Tasks shows that the start leads to such a state.
--
-- Interfaces.  `Fs.Card` is what the file system relies on of sdread and sdwrite: a sector reads back
-- as it was written, and a write leaves the other sectors. Everything in Fs takes it as a parameter.
-- `Pmon.Card.Firmware` stands for the firmware's routines for the card, on which sdread and sdwrite
-- rest; `Pmon.Transfers.Stores` is what they have to do, and `Pmon.Sample` a card that does it.
-- `Shell.System` has the system calls that the shell makes and printf, and `Shell.Keys.FilesEnd` what
-- the command cat relies on of fread, whose loop has fuel for the largest file.
-- `Mac.Bus` stands for the registers of the devices. `Syscall.Machine.Platform` joins these with what
-- the build decides.
--
-- Not modelled: the switch of registers, the exception entry and init_TLB, which are assembly; swap_out,
-- swap_in and the TLB handler; the copy of the exception handlers to their addresses; the formatting
-- routines of libs/printk.c, which come from another project, so that the texts of printks are a
-- parameter; the panic screen; run.c and io_proc.c; the image tools. `char` is unsigned. The addresses
-- of locks and other objects are mapped to their numbers by a parameter.
pub mod Common
pub mod Slist
pub mod Kernel
pub mod Queue
pub mod Sched
pub mod Sync
pub mod Process
pub mod Strings
pub mod Fs
pub mod Mailbox
pub mod Memory
pub mod Screen
pub mod Shell
pub mod Mac
pub mod Pmon
pub mod Irq
pub mod Syscall
pub mod Init
pub mod Fixture
