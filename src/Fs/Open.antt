-- ===== src/Fs/Open.antt =====
-- kernel/fs.c: `fs_open`.
pub mod Laws
pub mod Existing
pub mod Create
use nju_oslab.Prelude.{
  ℕ, zero, suc, ◌+◌, ◌<◌, bit_and, Bool, true, false, not, ◌&&◌, Option, none, some, List, [], ◌∷◌,
  ◌==◌, ltb, if◌then◌else◌, ok, M, pure, get, put, my_assert, in_range, ◌>>=◌, ◌>>◌, update,
  minus_one, ℤ, pos, negsuc, get_or,
}
use nju_oslab.LibString.{strncmp, strncpy}
use nju_oslab.Fs.Layout.{filename_length, entry_count, DirEntry}
use nju_oslab.Fs.State.{FsM, Fd, garbage, fdpool_size, fd_at, fd_put, dir_at, dir_put, mark_dir}

-- inc/assert.h: an error code E is the int -E; `negsuc n` is -(n + 1).
abbrev pub e_access : ℤ
e_access = negsuc 4

abbrev pub e_dquot : ℤ
e_dquot = negsuc 5

abbrev pub e_noent : ℤ
e_noent = negsuc 6

abbrev pub e_emptypath : ℤ
e_emptypath = negsuc 9

abbrev pub o_rdwr : ℕ
o_rdwr = 0o2

abbrev pub o_creat : ℕ
o_creat = 0o100

-- `(flags & flag) != 0`
abbrev pub has_flag : ℕ → ℕ → Bool
has_flag flags flag = not (bit_and flags flag == 0)

-- A pointer to the bytes of a string, or NULL.
abbrev pub Pathname : Type 0
Pathname = Option (ℕ → ℕ)

-- "kernel.bin"
abbrev pub kernel_bin : ℕ → ℕ
kernel_bin i = get_or (b'k' ∷ b'e' ∷ b'r' ∷ b'n' ∷ b'e' ∷ b'l' ∷ b'.' ∷ b'b' ∷ b'i' ∷ b'n' ∷ []) i 0

unfoldable pub internal_open : ℕ → FsM (Unit {0})
internal_open fd = do
  d ← fd_at fd
  fd_put fd (record d { buffer_state = garbage; inode_state = garbage; offset = 0; opened = true })

-- The inner loops: the first descriptor that is not open.
unfoldable pub first_closed : (ℕ → Fd) → ℕ → ℕ → Option ℕ
first_closed pool zero j = none
first_closed pool (suc n) j =
    let rest = first_closed pool n (j + 1) in if (pool j).opened then rest else some j

-- The descriptor j at the entry i, which has the name asked for. The second operand of `&&`, with
-- its assignment, is evaluated only at i == 0.
unfoldable pub open_entry : ℕ → ℕ → ℕ → FsM ℤ
open_entry i j flags = do
  d ← fd_at j
  fd_put j (record d { index = i; writable = if i == 0 then has_flag flags o_rdwr else d.writable })
  if i == 0 && has_flag flags o_rdwr then pure e_access else (do internal_open j; pure (pos j))

-- The outer loop ends by a return, or with the first free slot of the directory.
pub data Scan : Type 0 where
  returned : ℤ → Scan
  finished : Option ℕ → Scan

-- `if (file_slot < 0 && !dir[i].fileName[0]) file_slot = i;`
unfoldable pub note_slot : DirEntry → ℕ → Option ℕ → Option ℕ
note_slot e i (some slot) = some slot
note_slot e i none = if e.file_name 0 == 0 then some i else none

unfoldable pub scan_dir : (ℕ → ℕ) → ℕ → ℕ → ℕ → Option ℕ → FsM Scan
scan_dir path flags zero i slot s = ok (finished slot) s
scan_dir path flags (suc n) i slot s =
    let rest = scan_dir path flags n (i + 1) (note_slot (s.dir i) i slot) s in
    if strncmp path (s.dir i).file_name filename_length == 0
    then elim (first_closed s.fd_pool fdpool_size 0) [
      | none ↦ rest
      | some j ↦ (do r ← open_entry i j flags; pure (returned r)) s
    ]
    else rest

-- The descriptor j at a new entry in the slot.
unfoldable pub create_entry : (ℕ → ℕ) → ℕ → ℕ → ℕ → FsM ℤ
create_entry path flags slot j = do
  d ← fd_at j
  fd_put j
      (record d { index = slot; writable = if has_flag flags o_rdwr then true else d.writable })
  mark_dir
  internal_open j
  e ← dir_at slot
  dir_put slot (record e {
    inode_offset = minus_one;
    file_size = 0;
    file_name = strncpy e.file_name path filename_length;
  })
  pure (pos j)

-- `strncmp(pathname, "kernel.bin", FILENAME_LENGTH) ? file_slot > 0 : file_slot == 0`
unfoldable pub slot_fits : (ℕ → ℕ) → ℕ → Bool
slot_fits path slot = if strncmp path kernel_bin filename_length == 0 then slot == 0 else ltb 0 slot

unfoldable pub create_file : (ℕ → ℕ) → ℕ → ℕ → FsM ℤ
create_file path flags slot s =
    (do
      my_assert (slot_fits path slot)
      elim (first_closed s.fd_pool fdpool_size 0) [
        | none ↦ pure e_noent
        | some j ↦ create_entry path flags slot j
      ])
      s

-- What follows the outer loop.
unfoldable pub after_scan : (ℕ → ℕ) → ℕ → Scan → FsM ℤ
after_scan path flags (returned r) = pure r
after_scan path flags (finished none) =
    if has_flag flags o_creat then pure e_dquot else pure e_noent
after_scan path flags (finished (some slot)) =
    if has_flag flags o_creat then create_file path flags slot else pure e_noent

unfoldable pub fs_open : Pathname → ℕ → FsM ℤ
fs_open none flags = pure e_emptypath
fs_open (some path) flags =
    if path 0 == 0
    then pure e_emptypath
    else (do r ← scan_dir path flags entry_count 0 none; after_scan path flags r)
