-- ===== src/Fs/Cache.antt =====
-- kernel/fs.c: the one inode and the one data block that a descriptor holds, and their write-back.
use nju_oslab.Prelude.{
  ℕ, ◌/◌, ◌%◌, ◌==◌, if◌then◌else◌, pure, my_assert, ◌>>=◌, ◌>>◌, update, minus_one,
}
use nju_oslab.Fs.Layout.{sectsize, n_inode_datablock, inode_capacity, INode}
use nju_oslab.Fs.Layout.{encode_inode, decode_inode}
use nju_oslab.Fs.State.{
  FsM, garbage, useful, need_washing, is_dirty, is_garbage, fd_at, fd_put, dir_at, dir_put,
  mark_dir, ide_read_data, ide_write_data,
}
use nju_oslab.Fs.Alloc.{find_empty_inode}

-- `memset(&inode, 0, SECTSIZE)`
abbrev pub zero_inode : INode
zero_inode = record { data_blocks = λ _. 0; next = 0 }

unfoldable pub fd_inode_flush : ℕ → FsM (Unit {0})
fd_inode_flush fd = do
  d ← fd_at fd
  if is_dirty d.inode_state
      then (do
        fd_put fd (record d { inode_state = useful })
        ide_write_data d.inode_idx (encode_inode d.inode))
      else pure tt

unfoldable pub fd_set_inode : ℕ → FsM (Unit {0})
fd_set_inode fd = do
  block ← find_empty_inode
  d ← fd_at fd
  e ← dir_at d.index
  dir_put d.index (record e { inode_offset = block })
  mark_dir
  fd_put fd (record d { inode_idx = block; inode = zero_inode; inode_state = need_washing })

unfoldable pub fd_alloc_next_inode : ℕ → FsM (Unit {0})
fd_alloc_next_inode fd = do
  d ← fd_at fd
  fd_put fd (record d { inode_state = need_washing })
  block ← find_empty_inode
  d ← fd_at fd
  fd_put fd (record d { inode = record d.inode { next = block } })
  fd_inode_flush fd
  d ← fd_at fd
  fd_put fd (record d { inode_state = need_washing; inode_idx = d.inode.next; inode = zero_inode })

-- `inode_state = USEFUL; IDE_READ(inode_idx = block, &inode)`
unfoldable pub load_inode : ℕ → ℕ → FsM (Unit {0})
load_inode fd block = do
  b ← ide_read_data block
  d ← fd_at fd
  fd_put fd (record d { inode_state = useful; inode_idx = block; inode = decode_inode b })

unfoldable pub fd_inode_state_init : ℕ → FsM (Unit {0})
fd_inode_state_init fd = do
  d ← fd_at fd
  my_assert (d.offset % inode_capacity == 0)
  if d.offset == 0
      then (do
        e ← dir_at d.index
        if e.inode_offset == minus_one then fd_set_inode fd else load_inode fd e.inode_offset)
      else if d.inode.next == 0
      then fd_alloc_next_inode fd
      else load_inode fd d.inode.next

unfoldable pub fd_buffer_flush : ℕ → FsM (Unit {0})
fd_buffer_flush fd = do
  d ← fd_at fd
  if is_dirty d.buffer_state then ide_write_data d.buffer_idx d.buffer else pure tt
  fd_put fd (record d { buffer_state = garbage })

-- At the end of an inode the next one is brought in.
unfoldable pub fd_advance_inode : ℕ → FsM (Unit {0})
fd_advance_inode fd = do
  fd_inode_flush fd
  d ← fd_at fd
  fd_put fd (record d { inode_state = garbage })
  fd_inode_state_init fd

-- The block that holds the offset, allocated if the inode has none there.
unfoldable pub fd_load_block : ℕ → FsM (Unit {0})
fd_load_block fd = do
  d ← fd_at fd
  let i = d.offset / sectsize % n_inode_datablock
  if d.inode.data_blocks i == 0
      then (do
        fd_put fd (record d { inode_state = need_washing })
        block ← find_empty_inode
        d ← fd_at fd
        fd_put fd (record d {
          buffer_idx = block;
          inode = record d.inode { data_blocks = update d.inode.data_blocks i block };
        }))
      else (do
        b ← ide_read_data (d.inode.data_blocks i)
        fd_put fd (record d { buffer_idx = d.inode.data_blocks i; buffer = b }))
  d ← fd_at fd
  fd_put fd (record d { buffer_state = useful })

unfoldable pub fd_buffer_fetch : ℕ → FsM (Unit {0})
fd_buffer_fetch fd = do
  d ← fd_at fd
  if is_garbage d.buffer_state
      then (do
        my_assert (d.offset % sectsize == 0)
        if d.offset % inode_capacity == 0 then fd_advance_inode fd else pure tt
        fd_load_block fd)
      else pure tt
