-- ===== src/Fs/Sample.antt =====
-- A card whose sectors are kept by their addresses, and a small file system on it, for the tests.
use ucas_os.Common.{ℕ, ◌≡◌, ◌≢◌, ◌%◌, ◌<◌, true, false, arith, ◌==◌, upd}
use ucas_os.Fs.{Words, Card, Fs}

pub read_self : (a : ℕ) (w : Words) (d : ℕ → Words) (i : ℕ) → i < 128 → upd d a w a i ≡ w i
read_self a w d i h = let e : (a == a) ≡ true = ground arith in rw e

pub read_ne :
    (a b : ℕ) (w : Words) (d : ℕ → Words) → a % 512 ≡ 0 → b % 512 ≡ 0 → a ≢ b → upd d b w a ≡ d a
read_ne a b w d p q ne = let e : (a == b) ≡ false = ground arith in rw e

abbrev pub card : Card (ℕ → Words)
card = record {
  sdread = λ a d. d a;
  sdwrite = λ a w d. upd d a w;
  sdread-sdwrite_self = read_self;
  sdread-sdwrite_ne = read_ne;
}

-- nothing in use but inodes 0 to 2, and the file 1 open for reading and writing
abbrev pub fs : Fs (ℕ → Words)
fs = record {
  disk = λ a i. 0;
  super_block = λ i. 0;
  current_dir = λ i. 0;
  current_dir_pointer = 0;
  imap = upd (λ i. 0) 0 7;
  smap = λ i. 0;
  smap_index = 0;
  fd_array = λ i. record { ino = 1; access = 0; size = 700; offset = 0 };
  fd_array_slist = λ i. record { valid = false; cursor = 0 };
}
