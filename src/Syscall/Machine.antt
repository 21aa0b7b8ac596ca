-- ===== src/Syscall/Machine.antt =====
-- The state that the system calls work on, and what a call comes to.
use ucas_os.Common.{
  ℕ, zero, suc, ◌+◌, ◌-◌, ◌*◌, ◌^◌, ◌==◌, ltb, if◌then◌else◌, upd, List, [], ◌∷◌, ◌++◌,
}
use ucas_os.Common.Int.{ℤ, pos, negsuc}
use ucas_os.Kernel.{
  Kernel, Run, ok, panic, diverges, fault, TaskType, kernel_process, kernel_thread, user_process,
  user_thread, set_result,
}
use ucas_os.Sync.{Call, returns, waits}
use ucas_os.Process.{TaskInfo, Row}
use ucas_os.Fs.{Words, Card, Fs}
use ucas_os.Fs.Dirs.{Message}
use ucas_os.Fs.Mount.{Shown}
use ucas_os.Fs.Files.{Outcome, returned, panicked, unfinished}
use ucas_os.Screen.{Cells, Screen, Sent, screen_write, screen_reflush}
use ucas_os.Mac.{Bus, Addresses, Desc}
use ucas_os.Pmon.{Bytes}

-- what a call prints
pub data Report : Type 0 where
  process_table : List Row → Report
  made mounted : Report
  figures : List ℕ → Report
  message : Message → Report
  listing : List Shown → Report

-- What the kernel runs on, and what the build decides: `text` gives the strings that the calls of
-- printks come to, which the formatting routines of libs/printk.c make.
pub record Platform (D B : Type 0) : Type 0 where
  pub card : Card D
  pub bus : Bus B
  pub addresses : Addresses
  pub text : Report → List (List ℕ)
  -- exception_handler_exit, and the field `name` of current_dir
  pub exit_address : ℕ
  pub dir_name : ℕ
  -- the number of the lock, the semaphore, the condition or the barrier at an address
  pub object : ℕ → ℕ
  -- the end of the memory, where every string ends
  pub memory_end : ℕ
  -- the loads that a reset of the network controller takes at most
  pub reset_loads : ℕ
  -- what the structs of mkfs and mkdir hold before they are set
  pub super_block : Words
  pub inode : Words
  pub dir : Words

pub record Machine (D B : Type 0) : Type 0 where
  pub kernel : Kernel
  pub new_screen : Cells
  pub old_screen : Cells
  pub fs : Fs D
  pub memory : Bytes
  pub tdesc : ℕ → Desc
  pub rdesc : ℕ → Desc
  pub bus_state : B

-- A call ends with what it has sent to the terminal and the state, in which another task may run.
pub data Result (D B : Type 0) : Type 0 where
  finished : List Sent → Machine D B → Result D B
  panics : Result D B
  hangs : Result D B
  faults : Result D B

-- (int)w
abbrev pub int_of : ℕ → ℤ
int_of w = if ltb w (2 ^ 31) then pos w else negsuc (2 ^ 32 - 1 - w)

abbrev pub word_at : Bytes → ℕ → ℕ
word_at m a = m a + 256 * m (a + 1) + 2 ^ 16 * m (a + 2) + 2 ^ 24 * m (a + 3)

abbrev pub type_of : ℕ → TaskType
type_of n =
    if n == 0
    then kernel_process
    else if n == 1
    then kernel_thread
    else if n == 2
    then user_process
    else user_thread

-- *(task_info_t *)a
unfoldable pub task_at : Bytes → ℕ → TaskInfo
task_at m a = record {
  entry_point = word_at m a;
  type = type_of (word_at m (a + 4));
  priority = word_at m (a + 8);
  name = word_at m (a + 12);
}

-- the string at an address with its 0, of `n` bytes at most
unfoldable pub string_at : ℕ → Bytes → ℕ → List ℕ
string_at zero m a = []
string_at (suc n) m a = let rest = string_at n m (suc a) in m a ∷ (if m a == 0 then [] else rest)

-- bytes put to an address
unfoldable pub put_list : List ℕ → ℕ → Bytes → Bytes
put_list [] a m = m
put_list (b ∷ bs) a m = put_list bs (suc a) (upd m a b)

module _ {D B : Type 0} where
  abbrev pub with_kernel : Machine D B → Kernel → Machine D B
  with_kernel m k = record m { kernel = k }

  -- a handler that works on the tasks
  abbrev pub of_run : Machine D B → Run → Result D B
  of_run m (ok k) = finished [] (with_kernel m k)
  of_run m panic = panics
  of_run m diverges = hangs
  of_run m fault = faults

  -- A task that waits goes on with its call when it is chosen again.
  abbrev pub of_call : Machine D B → Call → Result D B
  of_call m (returns r) = of_run m r
  of_call m (waits r) = of_run m r

  abbrev pub screen_of : Machine D B → Screen
  screen_of m = record {
    new_screen = m.new_screen;
    old_screen = m.old_screen;
    cursor_x = m.kernel.screen_cursor_x;
    cursor_y = m.kernel.screen_cursor_y;
  }

  abbrev pub with_screen : Machine D B → Screen → Machine D B
  with_screen m s = record m {
    kernel = record m.kernel { screen_cursor_x = s.cursor_x; screen_cursor_y = s.cursor_y };
    new_screen = s.new_screen;
    old_screen = s.old_screen;
  }

  -- a result of the file system for the caller, in regs[2]
  abbrev pub with_result : Machine D B → ℕ → Fs D → Machine D B
  with_result m v f = record m { kernel = set_result v m.kernel; fs = f }

  abbrev pub of_outcome {ℓ} : {A : Type ℓ} → (A → Machine D B) → Outcome A → Result D B
  of_outcome f (returned a) = finished [] (f a)
  of_outcome f panicked = panics
  of_outcome f Outcome.fault = faults
  of_outcome f unfinished = hangs

-- printks of libs/printk.c, once the text is formed
unfoldable pub printks : List ℕ → Screen → List Sent × Screen
printks buff s = screen_reflush (screen_write buff s)

unfoldable pub print_all : List (List ℕ) → Screen → List Sent × Screen
print_all [] s = ([], s)
print_all (buff ∷ rest) s =
    let (sent, s₁) = printks buff s in let (sent', s₂) = print_all rest s₁ in (sent ++ sent', s₂)

module _ {D B : Type 0} (p : Platform D B) where
  unfoldable pub print : Report → Machine D B → Result D B
  print r m = let (sent, s) = print_all (p.text r) (screen_of m) in finished sent (with_screen m s)
