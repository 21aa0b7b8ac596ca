-- ===== src/Shell/Parse.antt =====
-- parse_commend of kernel/software/shell.c: the word and the argument of a line.
use ucas_os.Common.{
  ℕ, suc, ◌+◌, ◌-◌, ◌≡◌, ◌∙◌, ap, sym, subst, refl, inl, inr, true, false, List, [], ◌∷◌, ◌++◌, upd,
  has, ◌∉◌, length, arith, ◌==◌, if◌then◌else◌, Bool-cases, none, some, length-append,
}
use mathlib.Core.List.{append_assoc}
use ucas_os.Strings.{separate}
use ucas_os.Screen.{screen_width}
use ucas_os.Pmon.{Bytes}
use ucas_os.Shell.{Shell, Setup, Parsed, divide, parse_line, input_at, atoi}
use ucas_os.Shell.Number.{number, atoi-number}
use ucas_os.Shell.Line.{Holds, Stored, Stored-cut, Stored-append, string_at-Stored}

-- up to the first blank, and from there on
abbrev pub word_of : List ℕ → List ℕ
word_of [] = []
word_of (c ∷ w) = if c == b' ' then [] else c ∷ word_of w

abbrev pub rest_of : List ℕ → List ℕ
rest_of [] = []
rest_of (c ∷ w) = if c == b' ' then w else rest_of w

separate-none : (w : List ℕ) → 0 ∉ w → b' ' ∉ w → separate (w ++ (0 ∷ [])) b' ' ≡ none
unfolding separate
separate-none [] nz h = refl
separate-none (c ∷ w) nz h =
    let z : (c == 0) ≡ false = ground arith in
    let s : (c == b' ') ≡ false = ground arith in
    rw (z, s, separate-none w (ground arith) (ground arith)) refl

separate-length :
    (w : List ℕ)
    → 0 ∉ w
    → has b' ' w ≡ true
    → separate (w ++ (0 ∷ [])) b' ' ≡ some (length (word_of w))
unfolding separate
separate-length [] nz h = absurd (ground arith)
separate-length (c ∷ w) nz h = elim (Bool-cases (c == b' ')) [
  | inl e ↦ let z : (c == 0) ≡ false = ground arith in rw (z, e) refl
  | inr e ↦
      let z : (c == 0) ≡ false = ground arith in
      rw (z, e, separate-length w (ground arith) (ground arith)) refl
]

split : (w : List ℕ) → has b' ' w ≡ true → w ≡ word_of w ++ (b' ' ∷ rest_of w)
split [] h = absurd (ground arith)
split (c ∷ w) h = elim (Bool-cases (c == b' ')) [
  | inl e ↦ let z : c ≡ b' ' = ground arith in rw e (ap (λ x. x ∷ w) z)
  | inr e ↦ rw e (ap (λ x. c ∷ x) (split w (ground arith)))
]

-- What parse_commend makes of a line.
pub record Divided (sh : Shell) (w : List ℕ) (p : Parsed) : Type 0 where
  pub commend_part : p.commend_part ≡ word_of w ++ (0 ∷ [])
  pub arg_string : p.arg_string ≡ (if has b' ' w then rest_of w else w) ++ (0 ∷ [])
  pub arg_int : p.arg_int ≡ number (if has b' ' w then rest_of w else w)
  pub before : p.shell.before_buffer ≡ (if has b' ' w then sh.before_buffer else 0)

entered :
    (sh : Shell) (w : List ℕ)
    → Holds sh w
    → Stored (w ++ (0 ∷ [])) 0 (upd sh.input_buffer sh.buffer_index 0)
entered sh w h =
    let z : 0 + length w ≡ length w = omega arith in
    rw h.index (rw z at (Stored-append w 0 0 sh.input_buffer h.stored))

word_of-none : (w : List ℕ) → b' ' ∉ w → word_of w ≡ w
word_of-none [] h = refl
word_of-none (c ∷ w) h =
    let s : (c == b' ') ≡ false = ground arith in
    rw s (ap (λ x. c ∷ x) (word_of-none w (ground arith)))

solid_word : (w : List ℕ) → 0 ∉ w → 0 ∉ word_of w
solid_word [] h = h
solid_word (c ∷ w) h = ground (arith, solid_word w)

solid_rest : (w : List ℕ) → 0 ∉ w → 0 ∉ rest_of w
solid_rest [] h = h
solid_rest (c ∷ w) h = ground (arith, solid_rest w)

length-split :
    (w : List ℕ) → has b' ' w ≡ true → length (word_of w) + suc (length (rest_of w)) ≡ length w
length-split w h =
    rw (ap length (split w h))
      (let l = length-append (word_of w) (b' ' ∷ rest_of w) in omega (arith, l))

-- a line without a blank
parse_line_whole :
    (set : Setup) (sh : Shell) (w : List ℕ)
    → Holds sh w
    → b' ' ∉ w
    → Divided sh w
        (parse_line set (record sh { input_buffer = upd sh.input_buffer sh.buffer_index 0 }))
unfolding parse_line divide
parse_line_whole set sh w h e =
    let m : Bytes = upd sh.input_buffer sh.buffer_index 0 in
    let line : input_at 0 m ≡ w ++ (0 ∷ []) =
      string_at-Stored w screen_width 0 m h.solid (omega (arith, h.bound)) (entered sh w h) in
    let sep : separate (input_at 0 m) b' ' ≡ none =
      ap (λ s. separate s b' ') line ∙ separate-none w h.solid e in
    subst (λ o. Divided sh w (divide set (record sh { input_buffer = m }) o)) (sym sep)
      (record {
        commend_part = line ∙ rw (word_of-none w e) refl;
        arg_string = rw e line;
        arg_int = rw e (ap atoi line ∙ atoi-number w h.solid);
        before = rw e refl;
      })

cut_at_blank :
    (w : List ℕ) (m : Bytes)
    → has b' ' w ≡ true
    → Stored (w ++ (0 ∷ [])) 0 m
    → Stored (word_of w ++ (0 ∷ [])) 0 (upd m (length (word_of w)) 0)
      × Stored (rest_of w ++ (0 ∷ [])) (suc (length (word_of w))) (upd m (length (word_of w)) 0)
cut_at_blank w m e h =
    let z : 0 + length (word_of w) ≡ length (word_of w) = omega arith in
    let parts : w ++ (0 ∷ []) ≡ word_of w ++ (b' ' ∷ (rest_of w ++ (0 ∷ []))) =
      ap (λ v. v ++ (0 ∷ [])) (split w e) ∙ append_assoc (word_of w) (b' ' ∷ rest_of w) (0 ∷ []) in
    rw z at (Stored-cut (word_of w) (rest_of w ++ (0 ∷ [])) 0 b' ' m (rw parts at h))

-- and one with a blank
parse_line_cut :
    (set : Setup) (sh : Shell) (w : List ℕ)
    → Holds sh w
    → has b' ' w ≡ true
    → Divided sh w
        (parse_line set (record sh { input_buffer = upd sh.input_buffer sh.buffer_index 0 }))
unfolding parse_line divide
parse_line_cut set sh w h e =
    let m : Bytes = upd sh.input_buffer sh.buffer_index 0 in
    let i : ℕ = length (word_of w) in
    let len = length-split w e in
    let line : input_at 0 m ≡ w ++ (0 ∷ []) =
      string_at-Stored w screen_width 0 m h.solid (omega (arith, h.bound)) (entered sh w h) in
    let sep : separate (input_at 0 m) b' ' ≡ some i =
      ap (λ s. separate s b' ') line ∙ separate-length w h.solid e in
    let ne : (i == sh.buffer_index) ≡ false = ground (arith, len, h.index) in
    let cut : Stored (word_of w ++ (0 ∷ [])) 0 (upd m i 0)
        × Stored (rest_of w ++ (0 ∷ [])) (suc i) (upd m i 0) =
      cut_at_blank w m e (entered sh w h) in
    let word : input_at 0 (upd m i 0) ≡ word_of w ++ (0 ∷ []) =
      string_at-Stored (word_of w) screen_width 0 _ (solid_word w h.solid)
        (omega (arith, len, h.bound)) cut.0 in
    let rest : input_at (suc i) (upd m i 0) ≡ rest_of w ++ (0 ∷ []) =
      string_at-Stored (rest_of w) (screen_width - suc i) (suc i) _ (solid_rest w h.solid)
        (omega (arith, len, h.bound)) cut.1 in
    subst (λ o. Divided sh w (divide set (record sh { input_buffer = m }) o)) (sym sep)
      (rw ne (record {
        commend_part = word;
        arg_string = rw e rest;
        arg_int = rw e (ap atoi rest ∙ atoi-number (rest_of w) (solid_rest w h.solid));
        before = rw e refl;
      }))

-- A line that is typed and ended is divided at its first blank: the name of the command is what
-- stands before it, the argument what stands behind, and its number is the decimal value modulo
-- 2^32 when the argument consists of digits, and -1 otherwise. A line without a blank is its own
-- argument, and the byte before input_buffer is set to 0.
pub parse_line-Divided :
    (set : Setup) (sh : Shell) (w : List ℕ)
    → Holds sh w
    → Divided sh w
        (parse_line set (record sh { input_buffer = upd sh.input_buffer sh.buffer_index 0 }))
parse_line-Divided set sh w h = elim (Bool-cases (has b' ' w)) [
  | inl e ↦ parse_line_cut set sh w h e
  | inr e ↦ parse_line_whole set sh w h e
]
