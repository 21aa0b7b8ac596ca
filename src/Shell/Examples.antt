-- ===== src/Shell/Examples.antt =====
-- The theorems on the shell, tried on a machine that keeps what is printed and cleared, with one file
-- of less than 2000 bytes.
use Prim.Native.Nat.{min}
use ucas_os.Common.{ℕ, ◌-◌, ◌%◌, ◌≡◌, refl, arith, List, [], ◌∷◌, replicate, upd}
use ucas_os.Shell.{System, Setup, Shell, Text, parse_line, atoi, atoi_from, minus_one}
use ucas_os.Shell.Commands
use ucas_os.Shell.Line.{Holds, typed_all}
use ucas_os.Shell.Parse.{Divided, parse_line-Divided}

record Log : Type 0 where
  said : List Text
  cleared : List ℕ
  unread : ℕ

abbrev system : System Log
system = record {
  move_cursor = λ x y s. s;
  clear = λ line1 line2 s. record s { cleared = line1 ∷ line2 ∷ s.cleared };
  show_process = λ s. s;
  spawn = λ task s. (1, s);
  kill = λ pid s. (0, s);
  mkfs = λ s. s;
  mount = λ s. s;
  statfs = λ s. s;
  ls = λ s. s;
  get_curr_dir_name = λ s. (b'/' ∷ 0 ∷ [], s);
  mkdir = λ name s. s;
  rmdir = λ name s. s;
  cd = λ name s. s;
  touch = λ name s. s;
  fopen = λ name access s. (0, s);
  fread = λ fd size s. (
    min size (s.unread % 2000),
    replicate (min size (s.unread % 2000)) b'x',
    record s { unread = s.unread % 2000 - size },
  );
  printf = λ t s. record s { said = t ∷ s.said };
}

abbrev set : Setup
set = record { test_tasks = λ i. 0; test_tasks_num = 0; info_run = 0; stack = λ i. 0; unset = [] }

abbrev shell : Shell
shell = record { before_buffer = 7; input_buffer = λ i. 0; buffer_index = 0; run_buf = λ i. 0 }

abbrev log : Log
log = record { said = []; cleared = []; unread = 700 }

abbrev keys : List ℕ
keys = b'c' ∷ b'a' ∷ b't' ∷ b' ' ∷ b'f' ∷ 13 ∷ b'l' ∷ b'd' ∷ 127 ∷ b's' ∷ []

line_typed : typed_all keys [] ≡ b'l' ∷ b's' ∷ []
line_typed = refl

atoi_42 : atoi (b'4' ∷ b'2' ∷ 0 ∷ []) ≡ 42
unfolding atoi atoi_from
atoi_42 = refl

-- the line `clear`
abbrev clear_line : Shell
clear_line = record {
  before_buffer = 7;
  input_buffer = upd (upd (upd (upd (upd (λ i. 0) 0 b'c') 1 b'l') 2 b'e') 3 b'a') 4 b'r';
  buffer_index = 5;
  run_buf = λ i. 0;
}

clear_line-Holds : Holds clear_line (b'c' ∷ b'l' ∷ b'e' ∷ b'a' ∷ b'r' ∷ [])
clear_line-Holds = record {
  index = refl;
  stored = (refl, (refl, (refl, (refl, (refl, tt)))));
  solid = refl;
  bound = omega arith;
}

parse_line-Divided_example :
    Divided clear_line
      (b'c' ∷ b'l' ∷ b'e' ∷ b'a' ∷ b'r' ∷ [])
      (parse_line set (record clear_line { input_buffer = upd clear_line.input_buffer 5 0 }))
parse_line-Divided_example = parse_line-Divided set clear_line _ clear_line-Holds

-- its argument is not 0
clear_argument :
    (parse_line set (record clear_line { input_buffer = upd clear_line.input_buffer 5 0 })).arg_int
    ≡ minus_one
clear_argument = (parse_line-Divided set clear_line _ clear_line-Holds).arg_int
