-- ===== src/Screen/Examples.antt =====
-- The theorems on the screen, tried on a screen with some text.
use ucas_os.Common.{◌*◌, ◌+◌, ◌≡◌, refl, arith, ltb, leb, ◌&&◌, if◌then◌else◌, ◌==◌, [], ◌∷◌}
use ucas_os.Screen.{
  Screen, screen_write, screen_write_ch, put_ch, wrap_line, wrap_page, screen_reflush, screen_clear,
}
use ucas_os.Screen.Cursor.{OnScreen, Outside, screen_write-OnScreen}
use ucas_os.Screen.Refresh.{Terminal, Shows, receive_all, screen_reflush-Shows}
use ucas_os.Screen.Clear.{screen_clear-Shows}

abbrev blank : Screen
blank = record {
  new_screen = λ c. if c == 3 then b'a' else b' ';
  old_screen = λ c. b' ';
  cursor_x = 74;
  cursor_y = 26;
}

abbrev terminal : Terminal
terminal = record { cells = λ c. b' '; at = 0 }

blank-OnScreen : OnScreen blank
blank-OnScreen = record { x = omega arith; y = omega arith }

blank-Shows : Shows terminal blank.old_screen
blank-Shows c lt = refl

-- the text fills the last line, and the lower half moves up
screen_write-OnScreen_example :
    OnScreen (screen_write (b'o' ∷ b'k' ∷ 0 ∷ []) blank)
    × Outside blank (screen_write (b'o' ∷ b'k' ∷ 0 ∷ []) blank)
screen_write-OnScreen_example = screen_write-OnScreen (b'o' ∷ b'k' ∷ 0 ∷ []) blank blank-OnScreen

cursor_after : (screen_write (b'o' ∷ b'k' ∷ 0 ∷ []) blank).cursor_x ≡ 1
unfolding screen_write screen_write_ch put_ch wrap_line wrap_page
cursor_after = refl

screen_reflush-Shows_example :
    Shows (receive_all (screen_reflush blank).0 terminal) blank.new_screen
    × Shows (receive_all (screen_reflush blank).0 terminal) (screen_reflush blank).1.old_screen
    × ((screen_reflush blank).1.new_screen ≡ blank.new_screen)
    × ((screen_reflush (screen_reflush blank).1).0 ≡ [])
screen_reflush-Shows_example = screen_reflush-Shows blank terminal blank-Shows

screen_clear-Shows_example :
    Shows
      (receive_all (screen_clear 0 1 blank).0 terminal)
      (λ c. if leb (0 * 75) c && ltb c (1 * 75 + 75) then b' ' else blank.new_screen c)
    × Shows (receive_all (screen_clear 0 1 blank).0 terminal) (screen_clear 0 1 blank).1.new_screen
screen_clear-Shows_example =
    screen_clear-Shows 0 1 blank terminal (omega arith) (omega arith) blank-Shows
