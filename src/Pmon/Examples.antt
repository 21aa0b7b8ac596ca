-- ===== src/Pmon/Examples.antt =====
-- The theorems on the routines next to the firmware, tried on small inputs.
use ucas_os.Common.{
  ℕ, ◌+◌, ◌-◌, ◌≤◌, ◌<◌, ◌≡◌, ◌⊎◌, refl, false, inl, ltb, leb, ◌&&◌, if◌then◌else◌, some, arith,
}
use ucas_os.Pmon.{Bytes, memcopy, copy_up, copy_down}
use ucas_os.Pmon.Copy.{memcopy-Bytes}
use ucas_os.Pmon.Card.{is_qemu, sdwrite, sdread, read_buffer}
use ucas_os.Pmon.Stored.{WrittenBytes, sdread-sdwrite}
use ucas_os.Pmon.Sample.{Sim, sim, sim-Stores}

abbrev memory : Bytes
memory i = i

-- the areas overlap
memcopy-Bytes_example :
    memcopy 12 10 5 memory 14
    ≡ (if leb 12 14 && ltb 14 (12 + 5) then memory (10 + (14 - 12)) else memory 14)
memcopy-Bytes_example = memcopy-Bytes 12 10 5 memory 14

last_byte : memcopy 12 10 5 memory 16 ≡ 14
unfolding memcopy copy_up copy_down
last_byte = refl

abbrev ones : Bytes
ones i = 1

abbrev card : Sim
card = record { blocks = λ b i. 0; target = 0; count = 0 }

-- 600 bytes from the middle of block 1
sdread-sdwrite_example :
    (m₁ : Bytes) × (d₁ : Sim) × (m₂ : Bytes) × (sdwrite sim 1 1000 700 600 ones card
      ≡ some (m₁, d₁))
    × (sdread sim 5000 700 600 m₁ d₁ ≡ some m₂)
    × WrittenBytes sim 1 (λ d. d.blocks) sim-Stores 1000 700 600 ones m₁ card d₁
    × ((i : ℕ) → i < 600 → m₂ (5000 + i) ≡ ones (1000 + i))
    × ((a : ℕ)
        → (a < 5000) ⊎ (5000 + 600 ≤ a)
        → (a < read_buffer) ⊎ (read_buffer + 512 ≤ a)
        → m₂ a ≡ m₁ a)
sdread-sdwrite_example =
    sdread-sdwrite sim 1 (λ d. d.blocks) sim-Stores 1000 5000 700 600 ones card not_qemu
      (omega arith) (inl (omega arith)) (inl (omega arith)) (λ i. omega arith)
  where
    not_qemu : is_qemu sim ≡ false
    not_qemu = unfold is_qemu in refl
