-- ===== src/Shell/Commands.antt =====
-- kernel/software/shell.c: parse_commend and sw_shell.
use ucas_os.Common.{
  ℕ, zero, suc, ◌+◌, ◌-◌, ◌/◌, ◌^◌, ◌==◌, ◌&&◌, ◌||◌, ltb, leb, if◌then◌else◌, upd, List, [], ◌∷◌,
  Bool, true, false, Option, none, some,
}
use ucas_os.Screen.{screen_width, screen_height}
use ucas_os.Pmon.{Bytes}
use ucas_os.Syscall.Machine.{string_at, put_list}
use ucas_os.Shell.{
  Text, char, string, line, rule, prefix, too_large_index, wrong_index, too_many_tasks, illegal_pid,
  open_file_failed, no_executable, not_elf, no_commend, System, Setup, Shell, Parsed, minus_one,
  parse_line, commend, commend_of, input_limit,
}

module _ {S : Type 0} (sys : System S) (set : Setup) where
  -- a call that returns 0 when it fails
  abbrev pub unless_zero : ℕ × S → Text → S
  unless_zero (v, s) t = if v == 0 then sys.printf t s else s

  -- sys_clear of the upper half
  abbrev pub clear_above : S → S
  clear_above s = sys.clear 0 (screen_height / 2 - 1) s

  -- sys_clear of the lower half, and the cursor set there
  abbrev pub clear_below : S → S
  clear_below s =
      sys.move_cursor 0 (screen_height / 2 + 1)
        (sys.clear (screen_height / 2 + 1) (screen_height - 1) s)

  unfoldable pub run_clear : ℕ → S → S
  run_clear arg s =
      if arg == 0
      then clear_below s
      else if arg == 1
      then clear_above s
      else clear_below (clear_above s)

  -- arg > test_tasks_num and arg < 1 of an `int`
  unfoldable pub run_exec : ℕ → S → S
  run_exec arg s =
      if ltb set.test_tasks_num arg && ltb arg (2 ^ 31)
      then sys.printf too_large_index s
      else if (arg == 0) || leb (2 ^ 31) arg
      then sys.printf wrong_index s
      else unless_zero (sys.spawn (set.test_tasks (arg - 1)) s) too_many_tasks

  -- printf("%s", buf) of 513 bytes at most
  abbrev pub show_buf : Bytes → S → S
  show_buf buf s = sys.printf (string (string_at 513 buf 0)) s

  -- the loop of `cat` and what follows it, on fuel
  unfoldable pub cat_loop : ℕ → ℕ → Bytes → S → Option S
  cat_loop zero fd buf s = none
  cat_loop (suc n) fd buf s =
      let (size, got, s₁) = sys.fread fd 512 s in
      let buf₁ = put_list got 0 buf in
      elim (size == 512) [
        | true ↦ cat_loop n fd buf₁ (show_buf buf₁ s₁)
        | false ↦ some (show_buf (upd buf₁ size 0) s₁)
      ]

  unfoldable pub run_cat : ℕ → List ℕ → S → Option S
  run_cat fuel arg s =
      let (fd, s₁) = sys.fopen arg 1 s in
      elim (fd == minus_one) [
        | true ↦ some (sys.printf open_file_failed s₁)
        | false ↦ cat_loop fuel fd (upd set.stack 512 0) s₁
      ]

  abbrev pub is_elf : Bytes → Bool
  is_elf m = (m 0 == 127) && (m 1 == 69) && (m 2 == 76) && (m 3 == 70)

  unfoldable pub run_file : List ℕ → Shell → S → Shell × S
  run_file arg sh s =
      let (fd, s₁) = sys.fopen arg 1 s in
      if fd == minus_one
      then (sh, sys.printf no_executable s₁)
      else (let (size, got, s₂) = sys.fread fd 2047 s₁ in
          let m = put_list got 0 sh.run_buf in
          (
            record sh { run_buf = m },
            (if is_elf m then (sys.spawn set.info_run s₂).1 else sys.printf not_elf s₂),
          ))

  abbrev pub show_dir : List ℕ × S → S
  show_dir (name, s) = sys.printf (line name) s

  abbrev pub keep : Shell → Option S → Option (Shell × S)
  keep sh none = none
  keep sh (some s) = some (sh, s)

  -- the commands that only make calls
  unfoldable pub call_commend : ℕ → List ℕ → ℕ → S → S
  call_commend i arg n s =
      if i == 0
      then sys.show_process s
      else if i == 1
      then run_clear n s
      else if i == 2
      then run_exec n s
      else if i == 3
      then unless_zero (sys.kill n s) illegal_pid
      else if i == 4
      then sys.mount (sys.mkfs s)
      else if i == 5
      then sys.statfs s
      else if i == 6
      then show_dir (sys.get_curr_dir_name s)
      else if i == 7
      then sys.mkdir arg s
      else if i == 8
      then sys.rmdir arg s
      else if i == 9
      then sys.ls s
      else if i == 10
      then sys.cd arg s
      else sys.touch arg s

  -- the `switch` of parse_commend
  unfoldable pub run_commend : ℕ → ℕ → Parsed → S → Option (Shell × S)
  run_commend fuel i p s = elim (i == 12) [
    | true ↦ keep p.shell (run_cat fuel p.arg_string s)
    | false ↦ some (
        if i == 13
        then run_file p.arg_string p.shell s
        else (p.shell, call_commend i p.arg_string p.arg_int s))
  ]

  -- what parse_commend does with a line that is parsed
  unfoldable pub follow : ℕ → Parsed → S → Option (Shell × S)
  follow fuel p s = elim (commend_of commend 0 p.commend_part) [
    | some i ↦ run_commend fuel i p s
    | none ↦ some (p.shell, (if ltb 0 p.shell.buffer_index then sys.printf no_commend s else s))
  ]

  unfoldable pub parse_commend : ℕ → Shell → S → Option (Shell × S)
  parse_commend fuel sh s = follow fuel (parse_line set sh) s

  abbrev pub next_line : Option (Shell × S) → Option (Shell × S)
  next_line none = none
  next_line (some (sh, s)) = some (record sh { buffer_index = 0 }, sys.printf prefix s)

  -- the default of the `switch` of sw_shell
  unfoldable pub put_char : ℕ → Shell → S → Shell × S
  put_char c sh s =
      let s₁ = sys.printf (char c) s in
      if sh.buffer_index == input_limit
      then (
        record sh { input_buffer = upd sh.input_buffer 0 c; buffer_index = 1 },
        sys.printf prefix (sys.printf no_commend s₁),
      )
      else (
        record sh {
          input_buffer = upd sh.input_buffer sh.buffer_index c;
          buffer_index = suc sh.buffer_index;
        },
        s₁,
      )

  unfoldable pub erase_char : ℕ → Shell → S → Shell × S
  erase_char c sh s =
      if ltb 0 sh.buffer_index
      then (record sh { buffer_index = sh.buffer_index - 1 }, sys.printf (char c) s)
      else (sh, s)

  unfoldable pub enter_line : ℕ → ℕ → Shell → S → Option (Shell × S)
  enter_line fuel c sh s = next_line (
      parse_commend fuel (record sh { input_buffer = upd sh.input_buffer sh.buffer_index 0 })
        (sys.printf (char c) s))

  -- a round of the loop of sw_shell, for the character that sys_read returns
  unfoldable pub type_key : ℕ → ℕ → Shell → S → Option (Shell × S)
  type_key fuel c sh s = elim ((c == 10) || (c == 13)) [
    | true ↦ enter_line fuel c sh s
    | false ↦ some (
        if c == 0
        then (sh, s)
        else if (c == 8) || (c == 127)
        then erase_char c sh s
        else put_char c sh s)
  ]

  -- the loop, for the characters that are read
  unfoldable pub type_keys : ℕ → List ℕ → Shell → S → Option (Shell × S)
  type_keys fuel [] sh s = some (sh, s)
  type_keys fuel (c ∷ cs) sh s = elim (type_key fuel c sh s) [
    | none ↦ none
    | some (sh₁, s₁) ↦ type_keys fuel cs sh₁ s₁
  ]

  -- the `for` at its start, `n` rounds
  unfoldable pub print_rule : ℕ → S → S
  print_rule zero s = s
  print_rule (suc n) s = print_rule n (sys.printf rule s)

  unfoldable pub sw_shell : ℕ → List ℕ → Shell → S → Option (Shell × S)
  sw_shell fuel keys sh s =
      type_keys fuel keys sh
        (sys.printf prefix (print_rule screen_width (sys.move_cursor 0 (screen_height / 2) s)))
