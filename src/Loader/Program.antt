-- ===== src/Loader/Program.antt =====
-- The kernel in the memory, from the sectors of the disk.
use nju_oslab.Prelude.{
  ℕ, zero, suc, ◌+◌, ◌-◌, ◌*◌, ◌/◌, ◌^◌, ◌≤◌, ◌<◌, ◌≡◌, ◌≢◌, refl, ap, ◌∙◌, subst, true, Bool-cases,
  inl, inr, leb, ◌==◌, ==→ne, if◌then◌else◌, pure, arith, add32, sub32, Returns, returns,
  Returns-bind, Returns-mono,
}
use nju_oslab.Fs.Layout.{Sector, decode_inode, sectsize, n_inode_datablock}
use nju_oslab.Fs.Files.{data_sector, inode_no}
use nju_oslab.Start.{Elf, Proghdr, elf_at, proghdr_at, sizeof_proghdr}
use nju_oslab.Loader.{Loader, Chain, memset0, load_header, load_headers, bootmain}
use nju_oslab.Loader.Disk.{Serves, read_data-Serves}
use nju_oslab.Loader.Segment.{
  stored_from, poked-stored_from, IsNear, IsAt, Holds, skip_inodes-Holds, from_block,
  load_sectors-Holds,
}

abbrev pub first_block_of : Proghdr → ℕ
first_block_of ph = ph.p_offset / sectsize

-- The number of sectors that a segment has in the file.
abbrev pub sectors_of : Proghdr → ℕ
sectors_of ph = (ph.p_filesz + 511) / sectsize

-- The index of the inode after a segment.
abbrev pub inode_after : Proghdr → ℕ
inode_after ph = (first_block_of ph + sectors_of ph) / n_inode_datablock

-- A segment that can be loaded when the loader has the inode of index k: that is not behind it, and
-- the addresses do not wrap.
pub record IsLoadable (k : ℕ) (ph : Proghdr) : Type 0 where
  pub ahead : k ≤ first_block_of ph / n_inode_datablock
  pub filled : ph.p_filesz ≤ ph.p_memsz
  pub below : ph.p_pa + ph.p_memsz < 2 ^ 32
  pub sectors : ph.p_pa + sectors_of ph * sectsize < 2 ^ 32
  pub small : ph.p_filesz ≤ 2 ^ 31 - sectsize

-- A byte of the memory after a segment: zeroes behind its bytes, else whole sectors of the file, from
-- the start of the sector of its offset.
pub segment_byte : (disk : ℕ → Sector) (ph : Proghdr) (w old : ℕ) → ℕ
segment_byte disk ph w old =
    stored_from (ph.p_pa + ph.p_filesz) (ph.p_memsz - ph.p_filesz) (λ _. 0) w
      (from_block disk (first_block_of ph) ph.p_pa (sectors_of ph) w old)

-- After n headers, from the offset o of the header block on.
pub booted_byte : (disk : ℕ → Sector) (header : Sector) (n o w old : ℕ) → ℕ
booted_byte disk header zero o w old = old
booted_byte disk header (suc n) o w old =
    let ph = proghdr_at header o in
    booted_byte disk header n (o + sizeof_proghdr) w
      (if ph.p_memsz == 0 then old else segment_byte disk ph w old)

-- The segments come in the order of their inodes.
abbrev pub AllLoadable : (header : Sector) (n o k : ℕ) → Type 0
AllLoadable header zero o k = Unit {0}
AllLoadable header (suc n) o k =
    let ph = proghdr_at header o in
    (ph.p_memsz ≢ 0 → IsLoadable k ph)
    × AllLoadable header n (o + sizeof_proghdr) (if ph.p_memsz == 0 then k else inode_after ph)

module _ (disk : ℕ → Sector) (polls : ℕ) (near : IsNear disk) where
  load_header-Holds :
      (ph : Proghdr) (k : ℕ) (c : Chain) (s : Loader)
      → IsLoadable k ph
      → IsAt disk k c
      → Serves disk s.ports
      → Returns
          (λ c' t. Holds disk (inode_after ph) (λ w. segment_byte disk ph w (s.ram w)) c' t)
          (load_header (suc polls) ph c s)
  unfolding load_header memset0 segment_byte
  load_header-Holds ph k c s l a h =
      let small : leb ph.p_filesz (2 ^ 31 - sectsize) ≡ true = ground (arith, l.small) in
      let end_at : add32 ph.p_pa ph.p_filesz ≡ ph.p_pa + ph.p_filesz =
        omega (arith, l.filled, l.below) in
      let rest : sub32 ph.p_memsz ph.p_filesz ≡ ph.p_memsz - ph.p_filesz =
        omega (arith, l.filled, l.below) in
      let left : first_block_of ph / n_inode_datablock - c.index_inode
          ≡ first_block_of ph / n_inode_datablock - k =
        ap (λ j. first_block_of ph / n_inode_datablock - j) a.index in
      let there : k + (first_block_of ph / n_inode_datablock - k)
          ≡ first_block_of ph / n_inode_datablock =
        omega (arith, l.ahead) in
      rw (left, small, end_at, rest)
        (Returns-bind
          (skip_inodes-Holds disk polls near (first_block_of ph / n_inode_datablock - k) k c s a h)
          (λ c1 t p.
            Returns-bind
              (load_sectors-Holds disk polls near (sectors_of ph) (first_block_of ph) ph.p_pa c1 t
                l.sectors (subst (λ j. IsAt disk j c1) there p.at) p.serves)
              (λ c2 u q. returns record {
                at = q.at;
                memory = λ w lt.
                    poked-stored_from u.ram (ph.p_pa + ph.p_filesz) (ph.p_memsz - ph.p_filesz)
                      (λ _. 0) w (omega (arith, l.filled, l.below)) lt
                    ∙ ap
                        (λ old.
                          stored_from (ph.p_pa + ph.p_filesz) (ph.p_memsz - ph.p_filesz) (λ _. 0) w
                            old)
                        (q.memory w lt
                          ∙ ap
                              (λ old.
                                from_block disk (first_block_of ph) ph.p_pa (sectors_of ph) w old)
                              (p.memory w lt));
                serves = q.serves;
              })))

  one_header :
      (ph : Proghdr) (k : ℕ) (c : Chain) (s : Loader)
      → (ph.p_memsz ≢ 0 → IsLoadable k ph)
      → IsAt disk k c
      → Serves disk s.ports
      → Returns
          (λ c' t.
            Holds disk
              (if ph.p_memsz == 0 then k else inode_after ph)
              (λ w. if ph.p_memsz == 0 then s.ram w else segment_byte disk ph w (s.ram w))
              c'
              t)
          ((if ph.p_memsz == 0 then pure c else load_header (suc polls) ph c) s)
  one_header ph k c s l a h = elim (Bool-cases (ph.p_memsz == 0)) [
    | inl e ↦ rw e (returns record { at = a; memory = λ w lt. refl; serves = h })
    | inr e ↦ rw e (load_header-Holds ph k c s (l (==→ne ph.p_memsz 0 e)) a h)
  ]

  load_headers-Holds :
      (n o k : ℕ) (header : Sector) (c : Chain) (s : Loader)
      → AllLoadable header n o k
      → IsAt disk k c
      → Serves disk s.ports
      → Returns
          (λ _ t. (w : ℕ) → w < 2 ^ 32 → t.ram w ≡ booted_byte disk header n o w (s.ram w))
          (load_headers (suc polls) n o header c s)
  unfolding load_headers booted_byte
  load_headers-Holds zero o k header c s all a h = returns (λ w lt. refl)
  load_headers-Holds (suc n) o k header c s all a h =
      let ph = proghdr_at header o in
      Returns-bind (one_header ph k c s all.0 a h) (λ c' t p.
        Returns-mono
          (load_headers-Holds n (o + sizeof_proghdr) (if ph.p_memsz == 0 then k else inode_after ph)
            header c' t all.1 p.at p.serves)
          (λ _ u m w lt.
            m w lt
            ∙ ap (λ old. booted_byte disk header n (o + sizeof_proghdr) w old) (p.memory w lt)))

  -- From a disk that is ready whenever it is asked and hands over the sectors asked for, the
  -- numbers of whose first file's inodes and blocks are below 2 ^ 27, with the program headers
  -- inside the block 1, and non-empty segments that come in the order of their inodes, have no
  -- more bytes in the file than in the memory and at most 2 ^ 31 - 512, and whose addresses do
  -- not wrap: with one poll for each wait `bootmain` reaches the jump, to the entry of the
  -- header. In the memory every segment that is not empty has been loaded, later ones over
  -- earlier ones: the blocks of the file that it has bytes in, along the chain of inodes, from
  -- the block of its offset on, and zeroes from the end of its bytes in the file to the end of
  -- its memory; every other byte is what it was.
  pub bootmain-HasBooted :
      (s : Loader)
      → ((elf_at (data_sector disk 1)).e_phoff
            + (elf_at (data_sector disk 1)).e_phnum * sizeof_proghdr
          ≤ sectsize)
      → AllLoadable
          (data_sector disk 1)
          (elf_at (data_sector disk 1)).e_phnum
          (elf_at (data_sector disk 1)).e_phoff
          0
      → Serves disk s.ports
      → Returns
          (λ entry t.
            (entry ≡ (elf_at (data_sector disk 1)).e_entry)
            × ((w : ℕ)
                → w < 2 ^ 32
                → t.ram w
                  ≡ booted_byte disk
                      (data_sector disk 1)
                      (elf_at (data_sector disk 1)).e_phnum
                      (elf_at (data_sector disk 1)).e_phoff
                      w
                      (s.ram w)))
          (bootmain (suc polls) s)
  unfolding bootmain inode_no
  bootmain-HasBooted s headers all h =
      Returns-bind (read_data-Serves disk polls 0 s (omega arith) h) (λ b t p.
        Returns-bind (read_data-Serves disk polls 1 t (omega arith) p.1.1) (λ header u q.
          rw (q.0, no_wrap)
            (Returns-bind
              (load_headers-Holds e.e_phnum e.e_phoff 0 (data_sector disk 1)
                record { inode = decode_inode b; index_inode = 0 } u all
                record { index = refl; inode = ap decode_inode p.0 } q.1.1)
              (λ _ v m. returns (
                refl,
                λ w lt.
                    m w lt
                    ∙ ap
                        (λ (r : ℕ → ℕ).
                          booted_byte disk (data_sector disk 1) e.e_phnum e.e_phoff w (r w))
                        (q.1.0 ∙ p.1.0),
              )))))
    where
      e : Elf
      e = elf_at (data_sector disk 1)

      no_wrap : leb (e.e_phoff + e.e_phnum * sizeof_proghdr) sectsize ≡ true
      no_wrap = ground (arith, headers)
