-- ===== src/Shell.antt =====
-- kernel/software/shell.c: the line that is typed, and the commands.
--
-- The system calls and printf are those of `System`. The memory around the buffers is not kept, but
-- for the byte before input_buffer, which parse_commend writes.
pub mod Commands
pub mod Keys
pub mod Line
pub mod Number
pub mod Parse
mod Examples
use ucas_os.Common.{
  ℕ, zero, suc, ◌+◌, ◌-◌, ◌*◌, ◌%◌, ◌^◌, ◌==◌, ◌&&◌, ◌||◌, not, ltb, leb, if◌then◌else◌, upd, List,
  [], ◌∷◌, Bool, true, false, Option, none, some,
}
use ucas_os.Strings.{separate, same_string}
use ucas_os.Screen.{u32, screen_width, screen_height}
use ucas_os.Pmon.{Bytes}
use ucas_os.Syscall.Machine.{string_at, put_list}

-- what printf is given
pub data Text : Type 0 where
  char : ℕ → Text
  string line : List ℕ → Text
  rule prefix : Text
  too_large_index wrong_index too_many_tasks illegal_pid : Text
  open_file_failed no_executable not_elf no_commend : Text

-- the system calls that the shell makes, and printf
pub record System (S : Type 0) : Type 0 where
  pub move_cursor : ℕ → ℕ → S → S
  pub clear : ℕ → ℕ → S → S
  pub show_process : S → S
  pub spawn : ℕ → S → ℕ × S
  pub kill : ℕ → S → ℕ × S
  pub mkfs : S → S
  pub mount : S → S
  pub statfs : S → S
  pub ls : S → S
  pub get_curr_dir_name : S → List ℕ × S
  pub mkdir : List ℕ → S → S
  pub rmdir : List ℕ → S → S
  pub cd : List ℕ → S → S
  pub touch : List ℕ → S → S
  pub fopen : List ℕ → ℕ → S → ℕ × S
  -- what it returns, and what it puts to the buffer
  pub fread : ℕ → ℕ → S → ℕ × List ℕ × S
  pub printf : Text → S → S

-- what the build decides, and what the stack holds before it is set
pub record Setup : Type 0 where
  pub test_tasks : ℕ → ℕ
  pub test_tasks_num : ℕ
  pub info_run : ℕ
  pub stack : Bytes
  pub unset : List ℕ

pub record Shell : Type 0 where
  pub before_buffer : ℕ
  pub input_buffer : Bytes
  pub buffer_index : ℕ
  pub run_buf : Bytes

-- -1 of an `int`
abbrev pub minus_one : ℕ
minus_one = 2 ^ 32 - 1

abbrev pub is_digit : ℕ → Bool
is_digit c = leb 48 c && leb c 57

-- the loop of atoi, with `res` so far
unfoldable pub atoi_from : ℕ → List ℕ → ℕ
atoi_from res [] = res
atoi_from res (c ∷ s) =
    let rest = atoi_from (u32 (res * 10 + c - 48)) s in
    if c == 0 then res else if is_digit c then rest else minus_one

unfoldable pub atoi : List ℕ → ℕ
atoi s = atoi_from 0 s

pub record Parsed : Type 0 where
  pub shell : Shell
  pub commend_part : List ℕ
  pub arg_string : List ℕ
  pub arg_int : ℕ

-- the string in input_buffer from `i`
abbrev pub input_at : ℕ → Bytes → List ℕ
input_at i m = string_at (screen_width - i) m i

-- for the position that separate returns; `none` is -1, which is no index
unfoldable pub divide : Setup → Shell → Option ℕ → Parsed
divide set sh none = record {
  shell = record sh { before_buffer = 0 };
  commend_part = input_at 0 sh.input_buffer;
  arg_string = input_at 0 sh.input_buffer;
  arg_int = atoi (input_at 0 sh.input_buffer);
}
divide set sh (some i) =
    if i == sh.buffer_index
    then record {
      shell = sh;
      commend_part = input_at 0 sh.input_buffer;
      arg_string = set.unset;
      arg_int = 0;
    }
    else (let m = upd sh.input_buffer i 0 in
        record {
          shell = record sh { input_buffer = m };
          commend_part = input_at 0 m;
          arg_string = input_at (suc i) m;
          arg_int = atoi (input_at (suc i) m);
        })

-- the first part of parse_commend
unfoldable pub parse_line : Setup → Shell → Parsed
parse_line set sh = divide set sh (separate (input_at 0 sh.input_buffer) b' ')

abbrev pub commend : List (List ℕ)
commend =
    (b'p' ∷ b's' ∷ [])
    ∷ (b'c' ∷ b'l' ∷ b'e' ∷ b'a' ∷ b'r' ∷ [])
    ∷ (b'e' ∷ b'x' ∷ b'e' ∷ b'c' ∷ [])
    ∷ (b'k' ∷ b'i' ∷ b'l' ∷ b'l' ∷ [])
    ∷ (b'm' ∷ b'k' ∷ b'f' ∷ b's' ∷ [])
    ∷ (b's' ∷ b't' ∷ b'a' ∷ b't' ∷ b'f' ∷ b's' ∷ [])
    ∷ (b'c' ∷ b'u' ∷ b'r' ∷ b'r' ∷ b'd' ∷ b'i' ∷ b'r' ∷ [])
    ∷ (b'm' ∷ b'k' ∷ b'd' ∷ b'i' ∷ b'r' ∷ [])
    ∷ (b'r' ∷ b'm' ∷ b'd' ∷ b'i' ∷ b'r' ∷ [])
    ∷ (b'l' ∷ b's' ∷ [])
    ∷ (b'c' ∷ b'd' ∷ [])
    ∷ (b't' ∷ b'o' ∷ b'u' ∷ b'c' ∷ b'h' ∷ [])
    ∷ (b'c' ∷ b'a' ∷ b't' ∷ [])
    ∷ (b'r' ∷ b'u' ∷ b'n' ∷ [])
    ∷ []

-- the `for` of parse_commend: the first command of that name, from number `i`
unfoldable pub commend_of : List (List ℕ) → ℕ → List ℕ → Option ℕ
commend_of [] i s = none
commend_of (c ∷ cs) i s =
    let rest = commend_of cs (suc i) s in if same_string c s then some i else rest

-- SCREEN_WIDTH - prefix_length
abbrev pub input_limit : ℕ
input_limit = screen_width - 18
