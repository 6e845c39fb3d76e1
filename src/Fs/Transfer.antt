-- ===== src/Fs/Transfer.antt =====
-- kernel/fs.c: `fs_init`, `fs_flush`, `fs_read`, `fs_write`, `fs_lseek` and `fs_close`.
pub mod Mount
pub mod Block
pub mod Back
use nju_oslab.Prelude.{
  ℕ, zero, suc, ◌+◌, ◌-◌, ◌*◌, ◌%◌, ◌^◌, Bool, true, false, ltb, ◌==◌, if◌then◌else◌, ok, hang,
  panic, M, pure, get, put, my_assert, ◌>>=◌, ◌>>◌, update, copy, ℤ, pos, negsuc, signed32,
  unsigned32, add32, sub32, min,
}
use nju_oslab.Fs.Layout.{
  sectsize, fsoffset_dir, fsoffset_bitmap, encode_dir, decode_dir, encode_bitmap, decode_bitmap,
}
use nju_oslab.Fs.State.{
  Fs, FsM, Fd, garbage, useful, need_washing, is_dirty, fd_at, fd_put, dir_at, dir_put, mark_dir,
}
use nju_oslab.Fs.Cache.{fd_inode_flush, fd_buffer_flush, fd_buffer_fetch}

unfoldable pub fs_init : FsM (Unit {0})
fs_init s = ok tt (record s {
  state_bitmap = useful;
  state_dir = useful;
  dir = decode_dir (s.disk fsoffset_dir);
  bitmap = decode_bitmap (s.disk fsoffset_bitmap);
})

-- A sector of the disk is written if the copy in memory is dirty.
unfoldable pub flush_dir : Fs → Fs
flush_dir s =
    if is_dirty s.state_dir
    then record s { disk = update s.disk fsoffset_dir (encode_dir s.dir) }
    else s

unfoldable pub flush_bitmap : Fs → Fs
flush_bitmap s =
    if is_dirty s.state_bitmap
    then record s { disk = update s.disk fsoffset_bitmap (encode_bitmap s.bitmap) }
    else s

unfoldable pub fs_flush : FsM (Unit {0})
fs_flush s =
    ok tt (record (flush_bitmap (flush_dir s)) { state_bitmap = useful; state_dir = useful })

-- `min` of two ints
unfoldable pub min_int : ℤ → ℤ → ℤ
min_int (pos a) (pos b) = if ltb a b then pos a else pos b
min_int (pos a) (negsuc b) = negsuc b
min_int (negsuc a) (pos b) = negsuc a
min_int (negsuc a) (negsuc b) = if ltb b a then negsuc a else negsuc b

-- The bytes that one round moves: to the end of the block or of the request.
abbrev pub chunk : ℕ → ℕ → ℕ → ℕ
chunk offset len done = min (len - done) (sectsize - offset % sectsize)

-- One round of `fs_read`: the buffer `buf` with the bytes of the block copied in.
unfoldable pub read_round : ℕ → ℕ → ℕ → (ℕ → ℕ) → FsM (ℕ → ℕ)
read_round fd len n_read buf = do
  fd_buffer_fetch fd
  d ← fd_at fd
  let count = chunk d.offset len n_read
  fd_put fd (record d { offset = add32 d.offset count })
  if add32 d.offset count % sectsize == 0 then fd_buffer_flush fd else pure tt
  pure (copy buf n_read d.buffer (d.offset % sectsize) count)

-- `while (n_read < len)`. Each round moves a byte at least, so `len` rounds are enough.
unfoldable pub read_loop : ℕ → ℕ → ℕ → ℕ → (ℕ → ℕ) → FsM (ℕ × (ℕ → ℕ))
read_loop zero fd len n_read buf s = if ltb n_read len then hang else ok (n_read, buf) s
read_loop (suc fuel) fd len n_read buf s =
    let next =
      (do
        before ← fd_at fd
        buf' ← read_round fd len n_read buf
        read_loop fuel fd len (n_read + chunk before.offset len n_read) buf')
        s in
    if ltb n_read len then next else ok (n_read, buf) s

-- The loop over the length that was found. A negative one makes no round.
unfoldable pub read_up_to : ℕ → (ℕ → ℕ) → ℤ → FsM (ℕ × (ℕ → ℕ))
read_up_to fd buf (pos n) = read_loop n fd n 0 buf
read_up_to fd buf (negsuc n) = pure (0, buf)

unfoldable pub fs_read : ℕ → (ℕ → ℕ) → ℤ → FsM (ℕ × (ℕ → ℕ))
fs_read fd buf len = do
  d ← fd_at fd
  my_assert d.opened
  e ← dir_at d.index
  read_up_to fd buf (min_int len (signed32 (sub32 e.file_size d.offset)))

-- `if (dir[...].fileSize < offset) { fileSize = offset; state_dir = NEED_WASHING; }`
unfoldable pub grow_file : ℕ → ℕ → FsM (Unit {0})
grow_file index offset = do
  e ← dir_at index
  if ltb e.file_size offset
      then (do dir_put index (record e { file_size = offset }); mark_dir)
      else pure tt

-- One round of `fs_write`, with the bytes to write behind `buf`.
unfoldable pub write_round : ℕ → (ℕ → ℕ) → ℕ → ℕ → FsM (Unit {0})
write_round fd buf len result = do
  before ← fd_at fd
  let offset = before.offset % sectsize
  let count = chunk before.offset len result
  fd_buffer_fetch fd
  d ← fd_at fd
  fd_put fd (record d {
    buffer_state = need_washing;
    offset = add32 d.offset count;
    buffer = copy d.buffer offset buf result count;
  })
  grow_file d.index (add32 d.offset count)
  if offset + count == sectsize then fd_buffer_flush fd else pure tt

unfoldable pub write_loop : ℕ → ℕ → (ℕ → ℕ) → ℕ → ℕ → FsM ℕ
write_loop zero fd buf len result s = if ltb result len then hang else ok result s
write_loop (suc fuel) fd buf len result s =
    let next =
      (do
        before ← fd_at fd
        write_round fd buf len result
        write_loop fuel fd buf len (result + chunk before.offset len result))
        s in
    if ltb result len then next else ok result s

unfoldable pub fs_write : ℕ → (ℕ → ℕ) → ℤ → FsM ℕ
fs_write fd buf len = do
  d ← fd_at fd
  my_assert d.opened
  my_assert d.writable
  elim len [ pos n ↦ write_loop n fd buf n 0 | negsuc n ↦ pure 0 ]

abbrev pub seek_set : ℕ
seek_set = 0

abbrev pub seek_cur : ℕ
seek_cur = 1

abbrev pub seek_end : ℕ
seek_end = 2

-- The offset is ignored at SEEK_SET.
unfoldable pub seek_start : ℕ → FsM (Unit {0})
seek_start fd = do
  fd_buffer_flush fd
  fd_inode_flush fd
  d ← fd_at fd
  fd_put fd (record d { offset = 0; inode_state = garbage })

unfoldable pub fs_lseek : ℕ → ℤ → ℕ → FsM (Unit {0})
fs_lseek fd o whence = do
  d ← fd_at fd
  my_assert d.opened
  if whence == seek_set
      then seek_start fd
      else if whence == seek_cur
      then fd_put fd (record d { offset = add32 d.offset (unsigned32 o) })
      else if whence == seek_end
      then (do
        e ← dir_at d.index
        fd_put fd (record d { offset = add32 d.offset (add32 e.file_size (unsigned32 o)) }))
      else my_assert false

unfoldable pub fs_close : ℕ → FsM (Unit {0})
fs_close fd = do
  d ← fd_at fd
  my_assert d.opened
  fd_put fd (record d { opened = false })
  fd_inode_flush fd
  fd_buffer_flush fd
  fs_flush
