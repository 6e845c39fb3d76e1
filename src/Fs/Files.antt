-- ===== src/Fs/Files.antt =====
-- kernel/fs.c: a file as a client sees it, and how it lies on the disk: a chain of inodes, each with
-- the numbers of 127 blocks.
pub mod Steps
pub mod Fetch
pub mod Reading
pub mod Loop
pub mod Session
pub mod Refine
pub mod Opened
pub mod Tests
use nju_oslab.Prelude.{
  ℕ, zero, suc, ◌+◌, ◌-◌, ◌*◌, ◌/◌, ◌%◌, ◌^◌, ◌≤◌, ◌<◌, ◌≡◌, ◌≢◌, true, false, ltb, ◌==◌,
  if◌then◌else◌, min, minus_one,
}
use nju_oslab.Fs.Layout.{
  sectsize, entry_count, n_inode_datablock, inode_capacity, fsoffset_data, Sector, INode, Dir,
  decode_inode,
}
use nju_oslab.Fs.State.{Fs, Fd, garbage, useful, is_dirty, fdpool_size}

-- A file that is open for reading: its bytes, and where the next read starts.
pub record OpenFile : Type 0 where
  pub size : ℕ
  pub byte : ℕ → ℕ
  pub position : ℕ

-- What a read of `len` bytes gives: as many as there are.
abbrev pub amount : OpenFile → ℕ → ℕ
amount f len = min len (f.size - f.position)

abbrev pub advanced : OpenFile → ℕ → OpenFile
advanced f len = record f { position = f.position + amount f len }

-- The client's buffer after the read.
abbrev pub received : OpenFile → ℕ → (ℕ → ℕ) → ℕ → ℕ
received f len into j = if ltb j (amount f len) then f.byte (f.position + j) else into j

module _ (disk : ℕ → Sector) where
  -- A sector of the data area, and the inode in it.
  abbrev pub data_sector : ℕ → Sector
  data_sector block = disk ((block + fsoffset_data) % 2 ^ 28)

  abbrev pub inode_at : ℕ → INode
  inode_at block = decode_inode (data_sector block)

  module _ (first : ℕ) where
    -- The number of the k-th inode of the file whose first one is `first`.
    unfoldable pub inode_no : ℕ → ℕ
    inode_no zero = first
    inode_no (suc k) = (inode_at (inode_no k)).next

    abbrev pub block_no : ℕ → ℕ
    block_no b = (inode_at (inode_no (b / n_inode_datablock))).data_blocks (b % n_inode_datablock)

    abbrev pub file_byte : ℕ → ℕ
    file_byte o = data_sector (block_no (o / sectsize)) (o % sectsize)

    -- A file of this size is on the disk with all its blocks and inodes.
    pub record IsStored (size : ℕ) : Type 0 where
      pub started : 0 < size → first ≢ minus_one
      pub blocks : (b : ℕ) → b * sectsize < size → block_no b ≢ 0
      pub chain : (k : ℕ) → suc k * inode_capacity < size → inode_no (suc k) ≢ 0

    -- A descriptor between two reads, at the offset o: inside a block it holds the block, and after
    -- the first block it holds the inode of the byte before.
    pub record IsReading (o : ℕ) (d : Fd) : Type 0 where
      pub at : d.offset ≡ o
      pub clean : is_dirty d.inode_state ≡ false
      pub state : d.buffer_state ≡ (if o % sectsize == 0 then garbage else useful)
      pub block : o % sectsize ≢ 0 → d.buffer ≡ data_sector (block_no (o / sectsize))
      pub inode : 0 < o → d.inode ≡ inode_at (inode_no ((o - 1) / inode_capacity))

-- The descriptor d is open on the file f.
pub record Sees (disk : ℕ → Sector) (dir : Dir) (d : Fd) (f : OpenFile) : Type 0 where
  pub opened : d.opened ≡ true
  pub in_dir : d.index < entry_count
  pub same_size : (dir d.index).file_size ≡ f.size
  pub small : f.size < 2 ^ 31
  pub within : f.position ≤ f.size
  pub stored : IsStored disk (dir d.index).inode_offset f.size
  pub same_byte : (o : ℕ) → f.byte o ≡ file_byte disk (dir d.index).inode_offset o
  pub reading : IsReading disk (dir d.index).inode_offset f.position d

-- The descriptor number fd is.
abbrev pub Views : Fs → ℕ → OpenFile → Type 0
Views s fd f = (fd < fdpool_size) × Sees s.disk s.dir (s.fd_pool fd) f
