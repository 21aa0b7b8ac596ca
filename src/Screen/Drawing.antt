-- ===== src/Screen/Drawing.antt =====
-- What the loops of drivers/screen.c leave in the text buffer.
use ucas_os.Common.{
  ℕ, zero, suc, ◌+◌, ◌*◌, ◌-◌, ◌≤◌, ◌<◌, ◌≡◌, Bool, arith, ltb, leb, ◌&&◌, ◌==◌, if◌then◌else◌, upd,
}
use ucas_os.Screen.{Cells, scroll_line, scroll_lines, screen_scroll, clear_line, clear_lines}

-- the cell c is one of the `n` from `a` on
abbrev pub within : ℕ → ℕ → ℕ → Bool
within a n c = leb a c && ltb c (a + n)

scroll_line_lem :
    (n j i line2 : ℕ) (m : Cells) (c : ℕ)
    → j + n ≤ 75
    → scroll_line n j i line2 m c
      ≡ (if within (i * 75 + j) n c then (if i == line2 then b' ' else m (c + 75)) else m c)
unfolding scroll_line
scroll_line_lem zero j i line2 m c h = ground arith
scroll_line_lem (suc n) j i line2 m c h = ground (
  arith,
  scroll_line_lem n (suc j) i line2
      (upd m (i * 75 + j) (if i == line2 then b' ' else m ((i + 1) * 75 + j))) c,
)

scroll_lines_lem :
    (n i line2 : ℕ) (m : Cells) (c : ℕ)
    → i + n ≡ suc line2
    → scroll_lines n i line2 m c ≡ (
        if within (i * 75) (n * 75) c
        then (if leb (line2 * 75) c then b' ' else m (c + 75))
        else m c)
unfolding scroll_lines
scroll_lines_lem zero i line2 m c h = ground arith
scroll_lines_lem (suc n) i line2 m c h = ground (
  arith,
  scroll_lines_lem n (suc i) line2 (scroll_line 75 0 i line2 m) c,
  scroll_line_lem 75 0 i line2 m c,
  scroll_line_lem 75 0 i line2 m (c + 75),
)

-- With line1 <= line2, screen_scroll moves the lines after line1 up to line2 one line up, fills
-- line2 with spaces, and keeps all other cells.
pub screen_scroll-Cells :
    (line1 line2 : ℕ) (m : Cells) (c : ℕ)
    → line1 ≤ line2
    → screen_scroll line1 line2 m c ≡ (
        if leb (line1 * 75) c && ltb c (line2 * 75)
        then m (c + 75)
        else (if leb (line2 * 75) c && ltb c (line2 * 75 + 75) then b' ' else m c))
unfolding screen_scroll
screen_scroll-Cells line1 line2 m c h =
    ground (arith, scroll_lines_lem (suc line2 - line1) line1 line2 m c)

clear_line_lem :
    (n j i : ℕ) (m : Cells) (c : ℕ)
    → j + n ≤ 75
    → i < 28
    → clear_line n j i m c ≡ (if within (i * 75 + j) n c then b' ' else m c)
unfolding clear_line
clear_line_lem zero j i m c h lt = ground arith
clear_line_lem (suc n) j i m c h lt =
    ground (arith, clear_line_lem n (suc j) i (upd m (i * 75 + j) b' ') c)

-- on the screen the lines are set to spaces
pub clear_lines_lem :
    (n i : ℕ) (m : Cells) (c : ℕ)
    → i + n ≤ 28
    → clear_lines n i m c ≡ (if within (i * 75) (n * 75) c then b' ' else m c)
unfolding clear_lines
clear_lines_lem zero i m c h = ground arith
clear_lines_lem (suc n) i m c h =
    ground (arith, clear_lines_lem n (suc i) (clear_line 75 0 i m) c, clear_line_lem 75 0 i m c)
