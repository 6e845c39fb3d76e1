-- ===== src/Loader.antt =====
-- boot/main.c: the boot loader takes the kernel, the first file of the disk, into the memory and
-- starts it. Its disk routines are in Device/Ide.
pub mod Disk
pub mod Segment
pub mod Program
pub mod Tests
use nju_oslab.Prelude.{
  ℕ, zero, suc, ◌+◌, ◌-◌, ◌*◌, ◌/◌, ◌%◌, ◌^◌, Bool, ltb, leb, ◌==◌, if◌then◌else◌, ok, panic, fault,
  hang, M, Run, pure, in_range, ◌>>=◌, ◌>>◌, add32, sub32,
}
use nju_oslab.Fs.Layout.{Sector, INode, sectsize, n_inode_datablock, fsoffset_data, decode_inode}
use nju_oslab.Device.Ports.{Ports}
use nju_oslab.Device.Ide.{readsect}
use nju_oslab.Start.{Proghdr, elf_at, proghdr_at, sizeof_proghdr}

-- The physical memory, and the ports of the disk.
pub record Loader : Type 0 where
  pub ram : ℕ → ℕ
  pub ports : Ports

abbrev pub LoaderM : Type 0 → Type 0
LoaderM A = M Loader A

abbrev pub at_ports : {A : Type 0} → Loader → Run Ports A → Run Loader A
at_ports s (ok a t) = ok a (record s { ports = t })
at_ports s panic = panic
at_ports s fault = fault
at_ports s hang = hang

-- n stores in turn from an address on, which wraps.
abbrev pub poked : (ram : ℕ → ℕ) (dst n : ℕ) (bytes : ℕ → ℕ) → ℕ → ℕ
poked ram dst n bytes a = if ltb (sub32 a dst) n then bytes (sub32 a dst) else ram a

abbrev pub poke : (dst n : ℕ) (bytes : ℕ → ℕ) → LoaderM (Unit {0})
poke dst n bytes s = ok tt (record s { ram = poked s.ram dst n bytes })

-- `memset(dest, 0, s)`
unfoldable pub memset0 : ℕ → ℕ → LoaderM (Unit {0})
memset0 dest s = poke dest s (λ _. 0)

-- What the loop over the headers keeps: `index_inode` and the inode of that index.
pub record Chain : Type 0 where
  pub inode : INode
  pub index_inode : ℕ

-- `polls` is how often a wait for the disk may ask.
module _ (polls : ℕ) where
  -- A sector of the data area.
  unfoldable pub read_data : ℕ → LoaderM Sector
  read_data block s = at_ports s (readsect polls (add32 fsoffset_data block) s.ports)

  -- `readsect(&inode, FSOFFSET_DATA + inode.next); ++index_inode;`
  unfoldable pub next_inode : Chain → LoaderM Chain
  next_inode c = do
    b ← read_data c.inode.next
    pure record { inode = decode_inode b; index_inode = c.index_inode + 1 }

  -- `while (index_inode < ...)`, with the rounds left.
  unfoldable pub skip_inodes : ℕ → Chain → LoaderM Chain
  skip_inodes zero c = pure c
  skip_inodes (suc n) c = do c ← next_inode c; skip_inodes n c

  -- `while (count < ph->p_filesz)`, with the sectors left and the address `ph->p_pa + count`.
  unfoldable pub load_sectors : ℕ → ℕ → ℕ → Chain → LoaderM Chain
  load_sectors zero dst i c = pure c
  load_sectors (suc n) dst i c = do
    b ← read_data (c.inode.data_blocks i)
    poke dst sectsize b
    c ← if i + 1 == n_inode_datablock then next_inode c else pure c
    load_sectors n (add32 dst sectsize) (if i + 1 == n_inode_datablock then 0 else i + 1) c

  -- The body of the loop over the headers, where `p_memsz` is not zero. `count` is an int that passes
  -- `p_filesz` in steps of 512: the run fails where it overflows.
  unfoldable pub load_header : Proghdr → Chain → LoaderM Chain
  load_header ph c = do
    c ← skip_inodes (ph.p_offset / sectsize / n_inode_datablock - c.index_inode) c
    in_range (leb ph.p_filesz (2 ^ 31 - sectsize))
    c ←
        load_sectors ((ph.p_filesz + 511) / sectsize) ph.p_pa
          (ph.p_offset / sectsize % n_inode_datablock) c
    memset0 (add32 ph.p_pa ph.p_filesz) (sub32 ph.p_memsz ph.p_filesz)
    pure c

  -- `for (; (void*)ph < eph; ph++) if (ph->p_memsz)`, with the headers left and the offset of the
  -- next.
  unfoldable pub load_headers : ℕ → ℕ → Sector → Chain → LoaderM (Unit {0})
  load_headers zero o header c = pure tt
  load_headers (suc n) o header c = do
    c ← if (proghdr_at header o).p_memsz == 0 then pure c else load_header (proghdr_at header o) c
    load_headers n (o + sizeof_proghdr) header c

  -- The answer is the address that is jumped to. Headers outside the buffer are outside the model:
  -- the run fails.
  unfoldable pub bootmain : LoaderM ℕ
  bootmain = do
    b ← read_data 0
    header ← read_data 1
    let e = elf_at header
    in_range (leb (e.e_phoff + e.e_phnum * sizeof_proghdr) sectsize)
    load_headers e.e_phnum e.e_phoff header record { inode = decode_inode b; index_inode = 0 }
    pure e.e_entry
