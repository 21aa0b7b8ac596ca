-- ===== src/Fs/Opened.antt =====
-- fopen of kernel/fs/fs.c: what it leaves in the descriptor.
use ucas_os.Common.{ℕ, ◌%◌, ◌≡◌, ◌≢◌, ◌⊎◌}
use ucas_os.Fs.{Words, Fs, minus_one}
use ucas_os.Fs.Layout.{file_normal, inode_type, size_at}

-- the last descriptor is in use
abbrev pub Exhausted : {D : Type 0} → Fs D → Type 0
Exhausted f = (f.fd_array_slist 0).cursor ≡ 0

-- -1 for a reason, or a descriptor at the start of the file, whose inode is the place in the sector of
-- the inode
abbrev pub Opened : {D : Type 0} → Words → ℕ → ℕ → Fs D → ℕ × Fs D → Type 0
Opened inode n access f (r, g) =
    ((r ≡ minus_one) × ((n ≡ 0) ⊎ ((inode_type (n % 8) inode ≢ file_normal) ⊎ Exhausted f)))
    ⊎ (((g.fd_array r).ino ≡ n % 8)
        × ((g.fd_array r).offset ≡ 0)
        × ((g.fd_array r).access ≡ access)
        × ((g.fd_array r).size ≡ inode (size_at (n % 8))))
