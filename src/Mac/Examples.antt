-- ===== src/Mac/Examples.antt =====
-- The theorems on the network driver, tried on arrays at some addresses.
use ucas_os.Common.{ℕ, ◌+◌, ◌*◌, ◌≡◌, arith, leb, ltb, ◌&&◌, if◌then◌else◌, some, inl}
use ucas_os.Mac.{
  Addresses, Desc, tbuffer_size, rbuffer_size, send_desc_init, recv_desc_init, set_buffer,
  empty_buffer,
}
use ucas_os.Mac.Rings.{IsRing, desc_init-IsRing}
use ucas_os.Mac.Buffers.{Packets, set_buffer-Packets}

abbrev addresses : Addresses
addresses = record {
  tdesc = 0xa0200000;
  tbuffer = 0xa0201000;
  rdesc = 0xa0220000;
  rbuffer = 0xa0221000;
}

abbrev descriptors : ℕ → Desc
descriptors i = record { des0 = 1; des1 = 2; des2 = 3; des3 = 4 }

desc_init-IsRing_example :
    IsRing 0x61000400 0xa0201000 tbuffer_size 0xa0200000 (send_desc_init addresses descriptors)
    × IsRing 0x010007ff 0xa0221000 rbuffer_size 0xa0220000 (recv_desc_init addresses descriptors)
desc_init-IsRing_example = desc_init-IsRing addresses descriptors descriptors

abbrev memory : ℕ → ℕ
memory i = i

set_buffer-Packets_example :
    (m' : ℕ → ℕ) × (set_buffer (4 * 1000) (4 * 0) memory ≡ some m')
    × Packets 1000 0 memory m'
    × ((m'' : ℕ → ℕ) × (empty_buffer (4 * 1000) m' ≡ some m'')
        × ((c : ℕ) → m'' c ≡ (if leb 1000 c && ltb c (1000 + 64 * 256) then 0 else memory c)))
set_buffer-Packets_example = set_buffer-Packets 1000 0 memory (inl (omega arith))
