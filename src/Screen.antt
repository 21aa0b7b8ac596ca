-- ===== src/Screen.antt =====
-- drivers/screen.c: the text buffer, the cursor, and what is sent to the terminal.
--
-- The cursor's coordinates are the words of an `int`, and an index into the buffer is a word too: the
-- memory around the buffer is kept with it, as if the array went on. What is sent is a list: the
-- escape sequence that `printk` forms and the character that `port_write_ch` gives to the firmware.
pub mod Drawing
pub mod Cursor
pub mod Refresh
pub mod Clear
mod Examples
use ucas_os.Common.{
  ℕ, zero, suc, ◌+◌, ◌-◌, ◌*◌, ◌%◌, ◌^◌, Bool, ◌&&◌, ◌||◌, ◌==◌, ltb, leb, if◌then◌else◌, upd, List,
  [], ◌∷◌, ◌++◌,
}

abbrev pub u32 : ℕ → ℕ
u32 n = n % 2 ^ 32

-- a > 0 of an `int`
abbrev pub above_zero : ℕ → Bool
above_zero a = ltb 0 a && ltb a (2 ^ 31)

abbrev pub screen_width : ℕ
screen_width = 75

abbrev pub screen_height : ℕ
screen_height = 28

abbrev pub Cells : Type 0
Cells = ℕ → ℕ

pub record Screen : Type 0 where
  pub new_screen : Cells
  pub old_screen : Cells
  pub cursor_x : ℕ
  pub cursor_y : ℕ

pub data Sent : Type 0 where
  vt100_move_cursor : ℕ → ℕ → Sent
  port_write_ch : ℕ → Sent

-- the inner loop of screen_scroll, `n` rounds from column `j`
unfoldable pub scroll_line : ℕ → ℕ → ℕ → ℕ → Cells → Cells
scroll_line zero j i line2 m = m
scroll_line (suc n) j i line2 m =
    scroll_line n (suc j) i line2
      (upd m (i * screen_width + j) (if i == line2 then b' ' else m ((i + 1) * screen_width + j)))

-- the outer loop, `n` rounds from line `i`
unfoldable pub scroll_lines : ℕ → ℕ → ℕ → Cells → Cells
scroll_lines zero i line2 m = m
scroll_lines (suc n) i line2 m = scroll_lines n (suc i) line2 (scroll_line screen_width 0 i line2 m)

unfoldable pub screen_scroll : ℕ → ℕ → Cells → Cells
screen_scroll line1 line2 m = scroll_lines (suc line2 - line1) line1 line2 m

-- new_screen[screen_cursor_y * SCREEN_WIDTH + screen_cursor_x] = c
abbrev pub draw : ℕ → Screen → Screen
draw c s = record s {
  new_screen = upd s.new_screen (u32 (s.cursor_y * screen_width + s.cursor_x)) c;
}

-- the first `if` of screen_write_ch
unfoldable pub put_ch : ℕ → Screen → Screen
put_ch ch s =
    if (ch == 10) || (ch == 13)
    then record s { cursor_x = 0; cursor_y = u32 (suc s.cursor_y) }
    else if (ch == 8) || (ch == 127)
    then (if above_zero s.cursor_x then draw b' ' (record s { cursor_x = s.cursor_x - 1 }) else s)
    else record (draw ch s) { cursor_x = u32 (suc s.cursor_x) }

-- the second
unfoldable pub wrap_line : Screen → Screen
wrap_line s =
    if s.cursor_x == screen_width
    then record s { cursor_y = u32 (suc s.cursor_y); cursor_x = 0 }
    else s

-- and the third: the lower half goes up by a line
unfoldable pub wrap_page : Screen → Screen
wrap_page s =
    if s.cursor_y == screen_height - 1
    then record s {
      new_screen = screen_scroll 15 (screen_height - 2) s.new_screen;
      cursor_x = 0;
      cursor_y = screen_height - 2;
    }
    else s

unfoldable pub screen_write_ch : ℕ → Screen → Screen
screen_write_ch ch s = wrap_page (wrap_line (put_ch ch s))

-- up to the 0 that ends the string
unfoldable pub screen_write : List ℕ → Screen → Screen
screen_write [] s = s
screen_write (c ∷ buff) s =
    let rest = screen_write buff (screen_write_ch c s) in if c == 0 then s else rest

unfoldable pub screen_move_cursor : ℕ → ℕ → Screen → Screen
screen_move_cursor x y s = record s { cursor_x = x; cursor_y = y }

-- the inner loop of screen_reflush, `n` rounds from column `j` of line `i`: what is sent and
-- old_screen
unfoldable pub reflush_line : ℕ → ℕ → ℕ → Cells → Cells → List Sent × Cells
reflush_line zero j i new old = ([], old)
reflush_line (suc n) j i new old =
    let c = i * screen_width + j in
    let (sent, old') =
      reflush_line n (suc j) i new (if new c == old c then old else upd old c (new c)) in
    (
      if new c == old c
          then sent
          else vt100_move_cursor (j + 1) (i + 1) ∷ port_write_ch (new c) ∷ sent,
      old',
    )

-- the outer loop, `n` rounds from line `i`
unfoldable pub reflush_lines : ℕ → ℕ → Cells → Cells → List Sent × Cells
reflush_lines zero i new old = ([], old)
reflush_lines (suc n) i new old =
    let (sent, old₁) = reflush_line screen_width 0 i new old in
    let (sent', old₂) = reflush_lines n (suc i) new old₁ in (sent ++ sent', old₂)

unfoldable pub screen_reflush : Screen → List Sent × Screen
screen_reflush s =
    let (sent, old) = reflush_lines screen_height 0 s.new_screen s.old_screen in
    (sent, record s { old_screen = old })

-- the inner loop of screen_clear
unfoldable pub clear_line : ℕ → ℕ → ℕ → Cells → Cells
clear_line zero j i m = m
clear_line (suc n) j i m = clear_line n (suc j) i (upd m (u32 (i * screen_width + j)) b' ')

-- and the outer one
unfoldable pub clear_lines : ℕ → ℕ → Cells → Cells
clear_lines zero i m = m
clear_lines (suc n) i m = clear_lines n (u32 (suc i)) (clear_line screen_width 0 i m)

-- a <= b of two `int`
abbrev pub signed_le : ℕ → ℕ → Bool
signed_le a b = leb (u32 (a + 2 ^ 31)) (u32 (b + 2 ^ 31))

-- the rounds of a loop from line1 up to line2
abbrev pub lines_between : ℕ → ℕ → ℕ
lines_between line1 line2 = if signed_le line1 line2 then suc (u32 (line2 + 2 ^ 32 - line1)) else 0

unfoldable pub screen_clear : ℕ → ℕ → Screen → List Sent × Screen
screen_clear line1 line2 s =
    screen_reflush
      (record s { new_screen = clear_lines (lines_between line1 line2) line1 s.new_screen })

-- after the terminal's cursor is hidden
unfoldable pub init_screen : Screen → List Sent × Screen
init_screen s = screen_clear 0 (screen_height - 1) s
