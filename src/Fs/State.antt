-- ===== src/Fs/State.antt =====
-- kernel/fs.c: the state of the file system, with the disk behind it, and the accesses to it. The
-- disk is a function of the sector: a command of the driver reads or writes one sector (or more).
use nju_oslab.Prelude.{
  ℕ, ◌+◌, ◌*◌, ◌%◌, ◌^◌, Bool, ltb, ok, M, pure, get, put, in_range, ◌>>=◌, ◌>>◌, update,
}
use nju_oslab.Fs.Layout.{entry_count, fsoffset_data, DirEntry, Dir, INode, Bitmap, Sector}

-- GARBAGE, USEFUL and NEED_WASHING.
pub data Wash : Type 0 where
  garbage useful need_washing : Wash

-- `state == NEED_WASHING` and `state == GARBAGE`
abbrev pub is_dirty : Wash → Bool
is_dirty garbage = Bool.false
is_dirty useful = Bool.false
is_dirty need_washing = Bool.true

abbrev pub is_garbage : Wash → Bool
is_garbage garbage = Bool.true
is_garbage useful = Bool.false
is_garbage need_washing = Bool.false

pub record Fd : Type 0 where
  pub index : ℕ
  pub offset : ℕ
  pub buffer : Sector
  pub inode : INode
  pub buffer_idx : ℕ
  pub inode_idx : ℕ
  pub buffer_state : Wash
  pub inode_state : Wash
  pub opened : Bool
  pub writable : Bool

abbrev pub fdpool_size : ℕ
fdpool_size = entry_count * 64

pub record Fs : Type 0 where
  pub bitmap : Bitmap
  pub dir : Dir
  pub state_bitmap : Wash
  pub state_dir : Wash
  pub fd_pool : ℕ → Fd
  pub disk : ℕ → Sector

abbrev pub FsM : Type 0 → Type 0
FsM A = M Fs A

-- `fd_pool[fd]`, read and written: out of the pool it is an access outside the array.
unfoldable pub fd_at : ℕ → FsM Fd
fd_at fd = do in_range (ltb fd fdpool_size); s ← get; pure (s.fd_pool fd)

unfoldable pub fd_put : ℕ → Fd → FsM (Unit {0})
fd_put fd d = do
  in_range (ltb fd fdpool_size)
  s ← get
  put (record s { fd_pool = update s.fd_pool fd d })

-- `dir[i]`
unfoldable pub dir_at : ℕ → FsM DirEntry
dir_at i = do in_range (ltb i entry_count); s ← get; pure (s.dir i)

unfoldable pub dir_put : ℕ → DirEntry → FsM (Unit {0})
dir_put i e = do in_range (ltb i entry_count); s ← get; put (record s { dir = update s.dir i e })

-- `state_dir = NEED_WASHING`
unfoldable pub mark_dir : FsM (Unit {0})
mark_dir s = ok tt (record s { state_dir = need_washing })

-- IDE_READ and IDE_WRITE: a sector of the data area. Of the number of the sector kernel/ide.c sends 28
-- bits.
unfoldable pub ide_read_data : ℕ → FsM Sector
ide_read_data secno s = ok (s.disk ((secno + fsoffset_data) % 2 ^ 28)) s

unfoldable pub ide_write_data : ℕ → Sector → FsM (Unit {0})
ide_write_data secno b s =
    ok tt (record s { disk = update s.disk ((secno + fsoffset_data) % 2 ^ 28) b })
