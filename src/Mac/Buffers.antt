-- ===== src/Mac/Buffers.antt =====
-- set_buffer and empty_buffer of drivers/mac.c: 64 packets of 1024 bytes, 256 words each.
use ucas_os.Common.{
  ℕ, zero, suc, ◌+◌, ◌*◌, ◌-◌, ◌/◌, ◌%◌, ◌≤◌, ◌<◌, ◌≡◌, ◌⊎◌, arith, leb, ltb, ◌&&◌, ◌==◌,
  if◌then◌else◌, upd, ◌∙◌, Bool, true, false, Bool-cases, inl, inr, some,
}
use ucas_os.Mac.{copy_words, set_packets, set_buffer, zero_words, zero_packets, empty_buffer}

abbrev within : ℕ → ℕ → ℕ → Bool
within t n c = leb t c && ltb c (t + n)

abbrev Disjoint : ℕ → ℕ → ℕ → ℕ → Type 0
Disjoint t n s l = (s + l ≤ t) ⊎ (t + n ≤ s)

copy_words_lem :
    (n t s : ℕ) (m : ℕ → ℕ) (c : ℕ)
    → Disjoint t n s n
    → copy_words n t s m c ≡ (if within t n c then m (s + (c - t)) else m c)
unfolding copy_words
copy_words_lem zero t s m c h = ground arith
copy_words_lem (suc n) t s m c h =
    ground (arith, copy_words_lem n (suc t) (suc s) (upd m t (m s)) c)

-- where the word at `c` of the packets comes from
packet_source : (t c : ℕ) → t + 256 ≤ c → (c - (t + 256)) % 256 ≡ (c - t) % 256
packet_source t c h = omega arith

set_packets_lem :
    (n t s : ℕ) (m : ℕ → ℕ) (c : ℕ)
    → Disjoint t (n * 256) s 256
    → set_packets n t s m c ≡ (if within t (n * 256) c then m (s + (c - t) % 256) else m c)
unfolding set_packets
set_packets_lem zero t s m c h = ground arith
set_packets_lem (suc n) t s m c h =
    let m' : ℕ → ℕ = copy_words 256 t s m in
    let x : ℕ = (c - (t + 256)) % 256 in
    set_packets_lem n (t + 256) s m' c (shift n t s h)
    ∙ (elim (Bool-cases (within (t + 256) (n * 256) c)) [
      | inl e ↦
          let all : within t (suc n * 256) c ≡ true = ground arith in
          let far : within t 256 (s + x) ≡ false = away n t s x h (omega arith) in
          let same : x ≡ (c - t) % 256 = packet_source t c (ground arith) in
          rw (e, all) (copy_words_lem 256 t s m (s + x) (first n t s h) ∙ (rw (far, same)))
      | inr e ↦ rw e (copy_words_lem 256 t s m c (first n t s h) ∙ (by_packet n t s c e))
    ])
  where
    shift : (n t s : ℕ) → Disjoint t (suc n * 256) s 256 → Disjoint (t + 256) (n * 256) s 256
    shift n t s h = ground arith

    first : (n t s : ℕ) → Disjoint t (suc n * 256) s 256 → Disjoint t 256 s 256
    first n t s h = ground arith

    away : (n t s x : ℕ) → Disjoint t (suc n * 256) s 256 → x < 256 → within t 256 (s + x) ≡ false
    away n t s x h lt = ground arith

    by_packet :
        (n t s c : ℕ)
        → within (t + 256) (n * 256) c ≡ false
        → (if within t 256 c then m (s + (c - t)) else m c)
          ≡ (if within t (suc n * 256) c then m (s + (c - t) % 256) else m c)
    by_packet n t s c e = elim (Bool-cases (within t 256 c)) [
      | inl f ↦
          let all : within t (suc n * 256) c ≡ true = ground arith in
          let same : (c - t) % 256 ≡ c - t = ground arith in rw (f, all, same)
      | inr f ↦ let all : within t (suc n * 256) c ≡ false = ground arith in rw (f, all)
    ]

zero_words_lem :
    (n t : ℕ) (m : ℕ → ℕ) (c : ℕ) → zero_words n t m c ≡ (if within t n c then 0 else m c)
unfolding zero_words
zero_words_lem zero t m c = ground arith
zero_words_lem (suc n) t m c = ground (arith, zero_words_lem n (suc t) (upd m t 0) c)

zero_packets_lem :
    (n t : ℕ) (m : ℕ → ℕ) (c : ℕ) → zero_packets n t m c ≡ (if within t (n * 256) c then 0 else m c)
unfolding zero_packets
zero_packets_lem zero t m c = ground arith
zero_packets_lem (suc n) t m c =
    ground (arith, zero_packets_lem n (t + 256) (zero_words 256 t m) c, zero_words_lem 256 t m c)

abbrev pub Packets : ℕ → ℕ → (ℕ → ℕ) → (ℕ → ℕ) → Type 0
Packets t s m m' =
    (c : ℕ) → m' c ≡ (if leb t c && ltb c (t + 64 * 256) then m (s + (c - t) % 256) else m c)

-- With a word-aligned buffer that does not overlap the 256 words of data, set_buffer puts a copy
-- of the data in each of the 64 packets and keeps all other memory, and empty_buffer of the same
-- buffer then fills the packets with zeros and keeps all other memory.
pub set_buffer-Packets :
    (t s : ℕ) (m : ℕ → ℕ)
    → (s + 256 ≤ t) ⊎ (t + 64 * 256 ≤ s)
    → (m' : ℕ → ℕ) × (set_buffer (4 * t) (4 * s) m ≡ some m')
      × Packets t s m m'
      × ((m'' : ℕ → ℕ) × (empty_buffer (4 * t) m' ≡ some m'')
          × ((c : ℕ) → m'' c ≡ (if leb t c && ltb c (t + 64 * 256) then 0 else m c)))
unfolding set_buffer empty_buffer
set_buffer-Packets t s m h =
    let aligned : ((4 * t) % 4 == 0) ≡ true = ground arith in
    let quarter : 4 * t / 4 ≡ t = omega arith in
    let quarter' : 4 * s / 4 ≡ s = omega arith in
    let m' : ℕ → ℕ = set_packets 64 t s m in
    (
      m',
      rw (aligned, quarter, quarter'),
      λ c. set_packets_lem 64 t s m c h,
      (zero_packets 64 t m', rw (aligned, quarter), λ c. zero_packets_lem 64 t m' c ∙ (again c)),
    )
  where
    again :
        (c : ℕ)
        → (if within t (64 * 256) c then 0 else set_packets 64 t s m c)
          ≡ (if within t (64 * 256) c then 0 else m c)
    again c = elim (Bool-cases (within t (64 * 256) c)) [
      | inl e ↦ rw e
      | inr e ↦ rw e (set_packets_lem 64 t s m c h ∙ (rw e))
    ]
