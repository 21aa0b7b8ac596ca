-- ===== src/Strings.antt =====
-- libs/string.c. A buffer is the list of its bytes; a string in it ends at the first 0. `char` is
-- unsigned here, and only `strcmp`'s sign would tell.
pub mod Text
mod Examples
use ucas_os.Common.{
  ℕ, zero, suc, ◌-◌, Bool, true, false, ◌&&◌, ◌||◌, not, List, [], ◌∷◌, ◌==◌, if◌then◌else◌, Option,
  none, some,
}
use ucas_os.Common.Int.{ℤ, pos, negsuc}

unfoldable pub strlen : List ℕ → ℕ
strlen [] = 0
strlen (c ∷ s) = if c == 0 then 0 else suc (strlen s)

-- s[i] - t[i]
abbrev pub difference : ℕ → ℕ → ℤ
difference a zero = pos a
difference zero (suc b) = negsuc b
difference (suc a) (suc b) = difference a b

-- the bytes past the end of a buffer read as 0
unfoldable pub strcmp : List ℕ → List ℕ → ℤ
strcmp [] [] = pos 0
strcmp [] (d ∷ t) = difference 0 d
strcmp (c ∷ s) [] = difference c 0
strcmp (c ∷ s) (d ∷ t) =
    let rest = strcmp s t in if (c == d) && not (c == 0) then rest else difference c d

-- the destination after; a byte that does not fit is dropped
unfoldable pub strcpy : List ℕ → List ℕ → List ℕ
strcpy [] s = []
strcpy (d ∷ dest) [] = 0 ∷ dest
strcpy (d ∷ dest) (c ∷ s) = if c == 0 then 0 ∷ dest else c ∷ strcpy dest s

-- `len` bytes from the start
unfoldable pub memset : List ℕ → ℕ → ℕ → List ℕ
memset dest val zero = dest
memset [] val (suc len) = []
memset (d ∷ dest) val (suc len) = val ∷ memset dest val len

abbrev pub after : Option ℕ → Option ℕ
after none = none
after (some i) = some (suc i)

-- `none` is -1
unfoldable pub separate : List ℕ → ℕ → Option ℕ
separate [] separator = none
separate (c ∷ s) separator =
    if c == 0 then none else if c == separator then some 0 else after (separate s separator)

-- `strcmp(s, t) == 0`
abbrev pub is_zero : ℤ → Bool
is_zero (pos zero) = true
is_zero (pos (suc n)) = false
is_zero (negsuc n) = false

unfoldable pub same_string : List ℕ → List ℕ → Bool
unfolding strcmp
same_string s t = is_zero (strcmp s t)
