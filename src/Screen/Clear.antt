-- ===== src/Screen/Clear.antt =====
-- screen_clear of drivers/screen.c, on lines of the screen.
use ucas_os.Common.{
  ℕ, suc, ◌+◌, ◌*◌, ◌-◌, ◌≤◌, ◌<◌, ◌≡◌, ◌∙◌, ap, sym, arith, ltb, leb, ◌&&◌, if◌then◌else◌,
}
use ucas_os.Screen.{Cells, Screen, lines_between, clear_lines, screen_clear}
use ucas_os.Screen.Drawing.{clear_lines_lem}
use ucas_os.Screen.Refresh.{Terminal, Shows, receive_all, screen_reflush-Shows}

lines_between_lem :
    (line1 line2 : ℕ) → line1 ≤ line2 → line2 < 28 → lines_between line1 line2 ≡ suc line2 - line1
lines_between_lem line1 line2 le lt = ground arith

-- With line1 <= line2 < 28, after screen_clear a terminal that showed old_screen shows spaces on
-- these lines and new_screen as it was on the others, which is what new_screen then holds.
pub screen_clear-Shows :
    (line1 line2 : ℕ) (s : Screen) (t : Terminal)
    → line1 ≤ line2
    → line2 < 28
    → Shows t s.old_screen
    → Shows
        (receive_all (screen_clear line1 line2 s).0 t)
        (λ c. if leb (line1 * 75) c && ltb c (line2 * 75 + 75) then b' ' else s.new_screen c)
      × Shows
          (receive_all (screen_clear line1 line2 s).0 t)
          (screen_clear line1 line2 s).1.new_screen
unfolding screen_clear
screen_clear-Shows line1 line2 s t le lt h =
    let m : Cells = clear_lines (lines_between line1 line2) line1 s.new_screen in
    let (shown, _, kept, _) = screen_reflush-Shows (record s { new_screen = m }) t h in
    (λ c l. shown c l ∙ cleared c, λ c l. shown c l ∙ ap (λ (f : Cells). f c) (sym kept))
  where
    cleared :
        (c : ℕ)
        → clear_lines (lines_between line1 line2) line1 s.new_screen c
          ≡ (if leb (line1 * 75) c && ltb c (line2 * 75 + 75) then b' ' else s.new_screen c)
    cleared c =
        rw (lines_between_lem line1 line2 le lt)
          (ground (arith, clear_lines_lem (suc line2 - line1) line1 s.new_screen c))
