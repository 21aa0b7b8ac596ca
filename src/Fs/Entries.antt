-- ===== src/Fs/Entries.antt =====
-- The entries of a directory of kernel/fs/fs.c, by the words that hold their first bytes.
use ucas_os.Common.{
  ℕ, zero, suc, ◌+◌, ◌*◌, ◌/◌, ◌%◌, ◌≤◌, ◌<◌, ◌≡◌, ◌≢◌, refl, ap, ◌∙◌, true, false, arith, ◌==◌,
  upd, Bool-cases, inl, inr,
}
use ucas_os.Fs.{Words, get_byte, set_byte, darray_addr}
use ucas_os.Fs.Layout.{entry_valid, set_entry_valid, clear_entries, put_text, max_dir_item_num}
use ucas_os.Fs.Mount.{root_dir}

place : (i : ℕ) → ((32 + 32 * i) / 4 ≡ 8 + 8 * i) × ((32 + 32 * i) % 4 ≡ 0)
place i = (omega arith, omega arith)

first_byte : (d : Words) (i : ℕ) → get_byte d (32 + 32 * i) ≡ d (8 + 8 * i) % 256
unfolding get_byte
first_byte d i = let (p, q) = place i in rw (p, q) (omega arith)

set_byte_ne : (w : Words) (o v k : ℕ) → k ≢ o / 4 → set_byte w o v k ≡ w k
unfolding set_byte
set_byte_ne w o v k ne = let e : (k == o / 4) ≡ false = ground arith in rw e

invalid_word : (d : Words) (i : ℕ) → set_entry_valid i 0 d (8 + 8 * i) % 256 ≡ 0
unfolding set_byte
invalid_word d i =
    let (p, q) = place i in
    let e : (8 + 8 * i == 8 + 8 * i) ≡ true = ground arith in rw (p, q, e) (omega arith)

cleared_before : (n i j : ℕ) (d : Words) → j < i → clear_entries n i d (8 + 8 * j) ≡ d (8 + 8 * j)
unfolding clear_entries
cleared_before zero i j d h = refl
cleared_before (suc n) i j d h =
    cleared_before n (suc i) j (set_entry_valid i 0 d) (omega arith)
    ∙ set_byte_ne d (32 + 32 * i) 0 (8 + 8 * j) (omega arith)

cleared_word :
    (n i j : ℕ) (d : Words) → i ≤ j → j < i + n → clear_entries n i d (8 + 8 * j) % 256 ≡ 0
unfolding clear_entries
cleared_word zero i j d p q = absurd (omega arith)
cleared_word (suc n) i j d p q = elim (Bool-cases (i == j)) [
  | inl e ↦
      let i_j : i ≡ j = ground arith in
      ap (λ (v : ℕ). v % 256)
        (cleared_before n (suc i) j (set_entry_valid i 0 d) (omega arith)
          ∙ ap (λ (x : ℕ). set_entry_valid x 0 d (8 + 8 * j)) i_j)
      ∙ invalid_word d j
  | inr e ↦ cleared_word n (suc i) j (set_entry_valid i 0 d) (ground arith) (omega arith)
]

root_word :
    (dir : Words) (i : ℕ)
    → root_dir dir (8 + 8 * i) ≡ clear_entries max_dir_item_num 0 dir (8 + 8 * i)
unfolding root_dir put_text
root_word dir i =
    let d : Words = upd (clear_entries max_dir_item_num 0 dir) 0 darray_addr in
    let k : ℕ = 8 + 8 * i in
    let e : (k == 0) ≡ false = ground arith in
    set_byte_ne (set_byte d 4 47) 5 0 k (ground arith)
    ∙ (set_byte_ne d 4 47 k (ground arith) ∙ rw e)

-- a sector that holds what mkfs makes of the root's directory has no entry
pub entry_valid-root_dir :
    (w dir : Words) (i : ℕ)
    → ((k : ℕ) → k < 128 → w k ≡ root_dir dir k)
    → i < max_dir_item_num
    → entry_valid w i ≡ false
entry_valid-root_dir w dir i same lt =
    let zero_byte : get_byte w (32 + 32 * i) ≡ 0 =
      first_byte w i
      ∙ ap (λ (v : ℕ). v % 256) (same (8 + 8 * i) (omega arith) ∙ root_word dir i)
      ∙ cleared_word max_dir_item_num 0 i dir (omega arith) lt in
    rw zero_byte
