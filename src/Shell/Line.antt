-- ===== src/Shell/Line.antt =====
-- The line that is typed: input_buffer and buffer_index of kernel/software/shell.c by a list.
use ucas_os.Common.{
  ℕ, zero, suc, ◌+◌, ◌-◌, ◌<◌, ◌≤◌, ◌≡◌, ap, refl, true, false, ◌||◌, List, [], ◌∷◌, ◌++◌, upd, ◌∉◌,
  length, arith, ◌==◌, if◌then◌else◌,
}
use ucas_os.Pmon.{Bytes}
use ucas_os.Syscall.Machine.{string_at}
use ucas_os.Shell.{Shell, input_limit}

-- the bytes at an address
abbrev pub Stored : List ℕ → ℕ → Bytes → Type 0
Stored [] a m = Unit {0}
Stored (c ∷ w) a m = (m a ≡ c) × Stored w (suc a) m

-- The buffer holds the line, which has no 0 and room for the 0 that ends it.
pub record Holds (sh : Shell) (w : List ℕ) : Type 0 where
  pub index : sh.buffer_index ≡ length w
  pub stored : Stored w 0 sh.input_buffer
  pub solid : 0 ∉ w
  pub bound : length w ≤ input_limit

pub Stored-upd :
    (w : List ℕ) (a i v : ℕ) (m : Bytes) → a + length w ≤ i → Stored w a m → Stored w a (upd m i v)
Stored-upd [] a i v m le h = tt
Stored-upd (c ∷ w) a i v m le (e, h) =
    let ne : (a == i) ≡ false = ground arith in
    (rw ne e, Stored-upd w (suc a) i v m (omega (arith, le)) h)

pub Stored-upd_below :
    (w : List ℕ) (a i v : ℕ) (m : Bytes) → i < a → Stored w a m → Stored w a (upd m i v)
Stored-upd_below [] a i v m lt h = tt
Stored-upd_below (c ∷ w) a i v m lt (e, h) =
    let ne : (a == i) ≡ false = ground arith in
    (rw ne e, Stored-upd_below w (suc a) i v m (omega (arith, lt)) h)

pub Stored-append :
    (w : List ℕ) (a c : ℕ) (m : Bytes)
    → Stored w a m
    → Stored (w ++ (c ∷ [])) a (upd m (a + length w) c)
Stored-append [] a c m h = (ground arith, tt)
Stored-append (x ∷ w) a c m (e, h) =
    let ne : (a == a + suc (length w)) ≡ false = ground arith in
    let at : a + suc (length w) ≡ suc a + length w = omega arith in
    (rw ne e, rw at (Stored-append w (suc a) c m h))

-- A 0 put into the line cuts it in two.
pub Stored-cut :
    (w rest : List ℕ) (a c : ℕ) (m : Bytes)
    → Stored (w ++ (c ∷ rest)) a m
    → Stored (w ++ (0 ∷ [])) a (upd m (a + length w) 0)
      × Stored rest (suc (a + length w)) (upd m (a + length w) 0)
Stored-cut [] rest a c m (e, h) =
    let z : a + 0 ≡ a = omega arith in
    let eq : (a == a) ≡ true = ground arith in
    rw (z, eq) ((refl, tt), Stored-upd_below rest (suc a) a 0 m (omega arith) h)
Stored-cut (x ∷ w) rest a c m (e, h) =
    let ne : (a == a + suc (length w)) ≡ false = ground arith in
    let at : a + suc (length w) ≡ suc a + length w = omega arith in
    let (left, right) = Stored-cut w rest (suc a) c m h in ((rw ne e, rw at left), rw at right)

-- A string is read up to the 0 that ends it.
pub string_at-Stored :
    (w : List ℕ) (n a : ℕ) (m : Bytes)
    → 0 ∉ w
    → length w < n
    → Stored (w ++ (0 ∷ [])) a m
    → string_at n m a ≡ w ++ (0 ∷ [])
unfolding string_at
string_at-Stored w zero a m nz h s = absurd (omega arith)
string_at-Stored [] (suc n) a m nz h (e, t) = rw e refl
string_at-Stored (c ∷ w) (suc n) a m nz h (e, t) =
    let ne : (c == 0) ≡ false = ground arith in
    rw (e, ne)
      (ap (λ x. c ∷ x) (string_at-Stored w n (suc a) m (ground arith) (omega (arith, h)) t))

-- the line without its last character
abbrev pub erased : List ℕ → List ℕ
erased [] = []
erased (c ∷ []) = []
erased (c ∷ d ∷ w) = c ∷ erased (d ∷ w)

-- What a key makes of the line.
abbrev pub typed : ℕ → List ℕ → List ℕ
typed c w =
    if (c == 10) || (c == 13)
    then []
    else if c == 0
    then w
    else if (c == 8) || (c == 127)
    then erased w
    else if length w == input_limit
    then c ∷ []
    else w ++ (c ∷ [])

abbrev pub typed_all : List ℕ → List ℕ → List ℕ
typed_all [] w = w
typed_all (c ∷ cs) w = typed_all cs (typed c w)

length-erased : (w : List ℕ) → length (erased w) ≡ length w - 1
length-erased [] = refl
length-erased (c ∷ []) = refl
length-erased (c ∷ d ∷ w) = omega (arith, length-erased (d ∷ w))

Stored-erased : (w : List ℕ) (a : ℕ) (m : Bytes) → Stored w a m → Stored (erased w) a m
Stored-erased [] a m h = tt
Stored-erased (c ∷ []) a m h = tt
Stored-erased (c ∷ d ∷ w) a m (e, h) = (e, Stored-erased (d ∷ w) (suc a) m h)

not_mem-erased : (w : List ℕ) → 0 ∉ w → 0 ∉ erased w
not_mem-erased [] h = h
not_mem-erased (c ∷ []) h = refl
not_mem-erased (c ∷ d ∷ w) h = ground (arith, not_mem-erased (d ∷ w))

pub typed-erased :
    {sh : Shell} {w : List ℕ}
    → Holds sh w
    → Holds (record sh { buffer_index = sh.buffer_index - 1 }) (erased w)
typed-erased {sh = sh} {w = w} h = record {
  index = omega (arith, h.index, length-erased w);
  stored = Stored-erased w 0 sh.input_buffer h.stored;
  solid = not_mem-erased w h.solid;
  bound = omega (arith, h.bound, length-erased w);
}
