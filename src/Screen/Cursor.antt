-- ===== src/Screen/Cursor.antt =====
-- screen_write of drivers/screen.c: the cursor stays on the screen and the writes in the buffer.
use ucas_os.Common.{ℕ, ◌≤◌, ◌<◌, ◌≡◌, refl, ◌∙◌, arith, Bool-cases, inl, inr, ◌==◌, List, [], ◌∷◌}
use ucas_os.Screen.{Screen, put_ch, wrap_line, wrap_page, screen_write_ch, screen_write}
use ucas_os.Screen.Drawing.{screen_scroll-Cells}
use ucas_os.Screen.Refresh.{screen_size}

-- the last line is never written
pub record OnScreen (s : Screen) : Type 0 where
  pub x : s.cursor_x < 75
  pub y : s.cursor_y < 27

-- the memory around the buffer, and what the terminal shows, stay
pub record Outside (s s' : Screen) : Type 0 where
  pub cells : (c : ℕ) → screen_size ≤ c → s'.new_screen c ≡ s.new_screen c
  pub old : s'.old_screen ≡ s.old_screen

put_ch_cursor :
    (ch : ℕ) (s : Screen)
    → OnScreen s
    → ((put_ch ch s).cursor_x ≤ 75)
      × ((put_ch ch s).cursor_y ≤ 27)
      × ((put_ch ch s).cursor_y ≡ 27 → (put_ch ch s).cursor_x ≡ 0)
unfolding put_ch
put_ch_cursor ch s h = ground (arith, h.x, h.y)

put_ch-Outside : (ch : ℕ) (s : Screen) → OnScreen s → Outside s (put_ch ch s)
unfolding put_ch
put_ch-Outside ch s h = record { cells = λ c le. ground (arith, h.x, h.y); old = ground arith }

wrap_line-Outside : (s : Screen) → Outside s (wrap_line s)
unfolding wrap_line
wrap_line-Outside s = record { cells = λ c le. ground arith; old = ground arith }

wrap_page-Outside : (s : Screen) → Outside s (wrap_page s)
unfolding wrap_page
wrap_page-Outside s = record {
  cells = λ c le. ground (arith, screen_scroll-Cells 15 26 s.new_screen c);
  old = ground arith;
}

Outside-trans : (a b c : Screen) → Outside a b → Outside b c → Outside a c
Outside-trans a b c f g = record {
  cells = λ i le. g.cells i le ∙ f.cells i le;
  old = g.old ∙ f.old;
}

wrapped :
    (s : Screen)
    → s.cursor_x ≤ 75
    → s.cursor_y ≤ 27
    → (s.cursor_y ≡ 27 → s.cursor_x ≡ 0)
    → OnScreen (wrap_page (wrap_line s))
unfolding wrap_page wrap_line
wrapped s a b c = record { x = ground arith; y = ground arith }

screen_write_ch-OnScreen :
    (ch : ℕ) (s : Screen)
    → OnScreen s
    → OnScreen (screen_write_ch ch s) × Outside s (screen_write_ch ch s)
unfolding screen_write_ch
screen_write_ch-OnScreen ch s h =
    let (x, y, z) = put_ch_cursor ch s h in
    let t : Screen = put_ch ch s in
    (
      wrapped t x y z,
      Outside-trans s t (wrap_page (wrap_line t)) (put_ch-Outside ch s h) (
          Outside-trans t (wrap_line t) (wrap_page (wrap_line t)) (wrap_line-Outside t)
            (wrap_page-Outside (wrap_line t))),
    )

-- With the cursor on the first 27 lines, screen_write of any string leaves it on these, and writes
-- no cell outside the buffer and nothing of old_screen.
pub screen_write-OnScreen :
    (buff : List ℕ) (s : Screen)
    → OnScreen s
    → OnScreen (screen_write buff s) × Outside s (screen_write buff s)
unfolding screen_write
screen_write-OnScreen [] s h = (h, record { cells = λ c le. refl; old = refl })
screen_write-OnScreen (c ∷ buff) s h = elim (Bool-cases (c == 0)) [
  | inl e ↦ rw e (h, record { cells = λ c le. refl; old = refl })
  | inr e ↦
      let (on, out) = screen_write_ch-OnScreen c s h in
      let s' : Screen = screen_write_ch c s in
      let (on', out') = screen_write-OnScreen buff s' on in
      rw e (on', Outside-trans s s' (screen_write buff s') out out')
]
