-- ===== src/Init/Files.antt =====
-- init_file_system of init/main.c: on a card without a file system, and at the next start.
use ucas_os.Common.{ℕ, ◌≡◌, ◌≢◌, refl, false, arith, ◌==◌}
use ucas_os.Slist.{slist_init}
use ucas_os.Fs.{Words, Card, Fs, fs_base}
use ucas_os.Fs.Files.{fd_array_slist_size}
use ucas_os.Fs.Mount.{magic_at, magic_number, mkfs, mount}
use ucas_os.Fs.Formatted.{Fresh, mount-Fresh, made_magic}
use ucas_os.Init.{init_file_system}

-- the word of the card that tells a file system
abbrev pub magic_on : {D : Type 0} → Card D → D → ℕ
magic_on card d = card.sdread fs_base d magic_at

differs : (a b : ℕ) → a ≢ b → (a == b) ≡ false
differs a b ne = ground arith

module _ {D : Type 0} (card : Card D) (s inode dir : Words) where
  formatted :
      (f : Fs D)
      → magic_on card f.disk ≢ magic_number
      → init_file_system card s inode dir f ≡ record f {
        fd_array_slist = slist_init f.fd_array_slist fd_array_slist_size;
        disk = mkfs card s inode dir f.disk;
      }
  unfolding init_file_system
  formatted f ne = rw (differs (magic_on card f.disk) magic_number ne)

  mounted :
      (g : Fs D)
      → magic_on card g.disk ≡ magic_number
      → init_file_system card s inode dir g
        ≡ mount card (record g { fd_array_slist = slist_init g.fd_array_slist fd_array_slist_size })
  unfolding init_file_system
  mounted g e = rw e

  -- On a card without the magic number, init_file_system formats the card and does not mount it:
  -- the current directory, its address and the inode map in memory stay as they were. A later
  -- start with that card, from any state of the memory, finds and mounts the new file system, in
  -- which only the root is in use.
  pub init_file_system-Fresh :
      (f g : Fs D)
      → magic_on card f.disk ≢ magic_number
      → let f' = init_file_system card s inode dir f in
        (f'.current_dir ≡ f.current_dir)
        × (f'.current_dir_pointer ≡ f.current_dir_pointer)
        × (f'.imap ≡ f.imap)
        × Fresh card (init_file_system card s inode dir (record g { disk = f'.disk }))
  init_file_system-Fresh f g ne =
      let f' : Fs D = record f {
        fd_array_slist = slist_init f.fd_array_slist fd_array_slist_size;
        disk = mkfs card s inode dir f.disk;
      } in
      rw (formatted f ne) (
        refl,
        refl,
        refl,
        rw (mounted (record g { disk = f'.disk }) (made_magic card s inode dir f.disk)) (
            mount-Fresh card s inode dir
              (record g { fd_array_slist = slist_init g.fd_array_slist fd_array_slist_size })
              f.disk),
      )
