-- ===== src/Screen/Refresh.antt =====
-- screen_reflush of drivers/screen.c: old_screen is what the terminal shows.
use ucas_os.Common.{
  ℕ, zero, suc, ◌+◌, ◌*◌, ◌-◌, ◌≤◌, ◌<◌, ◌≡◌, refl, ◌∙◌, arith, Bool-cases, inl, inr, true, ◌==◌,
  upd, List, [], ◌∷◌, ◌++◌,
}
use ucas_os.Screen.{
  Cells, Screen, Sent, vt100_move_cursor, port_write_ch, screen_width, reflush_line, reflush_lines,
  screen_reflush,
}

-- A terminal: its cells, line by line, and the cell where its cursor is.
pub record Terminal : Type 0 where
  pub cells : Cells
  pub at : ℕ

-- the column and the line count from 1, and a character moves the cursor on
abbrev pub receive : Sent → Terminal → Terminal
receive (vt100_move_cursor x y) t = record t { at = (y - 1) * screen_width + (x - 1) }
receive (port_write_ch ch) t = record { cells = upd t.cells t.at ch; at = suc t.at }

abbrev pub receive_all : List Sent → Terminal → Terminal
receive_all [] t = t
receive_all (x ∷ xs) t = receive_all xs (receive x t)

receive_all-append :
    (xs ys : List Sent) (t : Terminal)
    → receive_all (xs ++ ys) t ≡ receive_all ys (receive_all xs t)
receive_all-append [] ys t = refl
receive_all-append (x ∷ xs) ys t = receive_all-append xs ys (receive x t)

abbrev pub screen_size : ℕ
screen_size = 2100

-- the terminal shows what the buffer holds
abbrev pub Shows : Terminal → Cells → Type 0
Shows t m = (c : ℕ) → c < screen_size → t.cells c ≡ m c

line_shown :
    (n j i : ℕ) (new old : Cells) (t : Terminal)
    → Shows t old
    → Shows (receive_all (reflush_line n j i new old).0 t) (reflush_line n j i new old).1
unfolding reflush_line
line_shown zero j i new old t h = h
line_shown (suc n) j i new old t h = elim (Bool-cases (new (i * 75 + j) == old (i * 75 + j))) [
  | inl e ↦ rw e (line_shown n (suc j) i new old t h)
  | inr e ↦ rw e (
      line_shown n (suc j) i new (upd old (i * 75 + j) (new (i * 75 + j)))
        (receive (port_write_ch (new (i * 75 + j))) (receive (vt100_move_cursor (j + 1) (i + 1)) t))
        (λ c lt. ground (arith, h c lt)))
]

lines_shown :
    (n i : ℕ) (new old : Cells) (t : Terminal)
    → Shows t old
    → Shows (receive_all (reflush_lines n i new old).0 t) (reflush_lines n i new old).1
unfolding reflush_lines
lines_shown zero i new old t h = h
lines_shown (suc n) i new old t h =
    let (sent, old₁) = reflush_line 75 0 i new old in
    let (sent', old₂) = reflush_lines n (suc i) new old₁ in
    rw (receive_all-append sent sent' t)
      (lines_shown n (suc i) new old₁ (receive_all sent t) (line_shown 75 0 i new old t h))

-- old_screen agrees with new_screen on the part that the walk has passed
line_new :
    (n j i : ℕ) (new old : Cells) (c : ℕ)
    → c < i * 75 + j + n
    → (c < i * 75 + j → old c ≡ new c)
    → (reflush_line n j i new old).1 c ≡ new c
unfolding reflush_line
line_new zero j i new old c lt h = h (omega (arith, lt))
line_new (suc n) j i new old c lt h = elim (Bool-cases (new (i * 75 + j) == old (i * 75 + j))) [
  | inl e ↦ rw e (line_new n (suc j) i new old c (omega (arith, lt)) (λ l. ground (arith, h)))
  | inr e ↦ rw e (
      line_new n (suc j) i new (upd old (i * 75 + j) (new (i * 75 + j))) c (omega (arith, lt))
        (λ l. ground (arith, h)))
]

lines_new :
    (n i : ℕ) (new old : Cells) (c : ℕ)
    → c < (i + n) * 75
    → (c < i * 75 → old c ≡ new c)
    → (reflush_lines n i new old).1 c ≡ new c
unfolding reflush_lines
lines_new zero i new old c lt h = h (omega (arith, lt))
lines_new (suc n) i new old c lt h =
    lines_new n (suc i) new (reflush_line 75 0 i new old).1 c (omega (arith, lt))
      (λ l. line_new 75 0 i new old c (omega (arith, l)) (λ l'. h (omega (arith, l'))))

-- nothing is sent for lines that agree
line_quiet :
    (n j i : ℕ) (new old : Cells)
    → j + n ≤ 75
    → i < 28
    → ((c : ℕ) → c < screen_size → old c ≡ new c)
    → reflush_line n j i new old ≡ ([], old)
unfolding reflush_line
line_quiet zero j i new old h lt same = refl
line_quiet (suc n) j i new old h lt same =
    let e : (new (i * 75 + j) == old (i * 75 + j)) ≡ true =
      ground (arith, same (i * 75 + j) (omega (arith, lt, h))) in
    rw e (rw (line_quiet n (suc j) i new old (omega (arith, h)) lt same) refl)

lines_quiet :
    (n i : ℕ) (new old : Cells)
    → i + n ≤ 28
    → ((c : ℕ) → c < screen_size → old c ≡ new c)
    → (reflush_lines n i new old).0 ≡ []
unfolding reflush_lines
lines_quiet zero i new old h same = refl
lines_quiet (suc n) i new old h same =
    rw (line_quiet 75 0 i new old (omega arith) (omega (arith, h)) same)
      (lines_quiet n (suc i) new old (omega (arith, h)) same)

-- A terminal that shows old_screen shows new_screen once it has received what screen_reflush
-- sends, and old_screen holds the same characters as new_screen then, which is kept; a second
-- screen_reflush sends nothing.
pub screen_reflush-Shows :
    (s : Screen) (t : Terminal)
    → Shows t s.old_screen
    → Shows (receive_all (screen_reflush s).0 t) s.new_screen
      × Shows (receive_all (screen_reflush s).0 t) (screen_reflush s).1.old_screen
      × ((screen_reflush s).1.new_screen ≡ s.new_screen)
      × ((screen_reflush (screen_reflush s).1).0 ≡ [])
unfolding screen_reflush
screen_reflush-Shows s t h =
    let shown = lines_shown 28 0 s.new_screen s.old_screen t h in
    let same : (c : ℕ)
        → c < screen_size
        → (reflush_lines 28 0 s.new_screen s.old_screen).1 c ≡ s.new_screen c =
      λ c lt. lines_new 28 0 s.new_screen s.old_screen c lt (λ l. absurd (omega (arith, l))) in
    (
      λ c lt. shown c lt ∙ same c lt,
      shown,
      refl,
      lines_quiet 28 0 s.new_screen (reflush_lines 28 0 s.new_screen s.old_screen).1 (omega arith)
          same,
    )
