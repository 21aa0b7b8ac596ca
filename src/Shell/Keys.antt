-- ===== src/Shell/Keys.antt =====
-- sw_shell of kernel/software/shell.c, on the line that the keys have typed.
use ucas_os.Common.{ℕ, ◌+◌, ◌*◌, ◌<◌, ◌≤◌, ◌≡◌, Option, none, some}
use ucas_os.Shell.{System, Shell, Text}
use ucas_os.Shell.Commands

-- What fread promises of open files, with `left` bytes to read in each: it returns what is left up to
-- the size, and a file is smaller than `fuel` sectors.
pub record FilesEnd {S : Type 0} (sys : System S) (fuel : ℕ) : Type 0 where
  pub left : S → ℕ → ℕ
  pub bounded : (s : S) (fd : ℕ) → left s fd < 512 * fuel
  pub read_all : (s : S) (fd : ℕ) → left s fd < 512 → (sys.fread fd 512 s).0 ≡ left s fd
  pub read_part :
      (s : S) (fd : ℕ) → 512 ≤ left s fd → left (sys.fread fd 512 s).2 fd + 512 ≡ left s fd
  pub printf_left : (t : Text) (s : S) (fd : ℕ) → left (sys.printf t s) fd ≡ left s fd

abbrev IsSome {ℓ} : {A : Type ℓ} → Option A → Type 0
IsSome none = ⊥
IsSome (some a) = Unit {0}

-- A run ends, with the shell as a condition wants it.
abbrev pub Ends : {S : Type 0} → (Shell → Type 0) → Option (Shell × S) → Type 0
Ends P none = ⊥
Ends P (some (sh, s)) = P sh
