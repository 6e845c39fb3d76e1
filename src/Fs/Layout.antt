-- ===== src/Fs/Layout.antt =====
-- kernel/fs.h: the constants, the structures on the disk and the bytes that stand for them.
pub mod Laws
use nju_oslab.Prelude.{ℕ, ◌+◌, ◌-◌, ◌*◌, ◌/◌, ◌%◌, ◌^◌, ltb, if◌then◌else◌}

abbrev pub sectsize : ℕ
sectsize = 512

abbrev pub filename_length : ℕ
filename_length = 24

abbrev pub entry_count : ℕ
entry_count = 512 / 32

abbrev pub n_inode_datablock : ℕ
n_inode_datablock = 512 / 4 - 1

abbrev pub inode_capacity : ℕ
inode_capacity = n_inode_datablock * 512

-- The number of bits of the bitmap; the array has `bitmap_size / 32` words.
abbrev pub bitmap_size : ℕ
bitmap_size = 512 * 8

abbrev pub bitmap_words : ℕ
bitmap_words = bitmap_size / 32

abbrev pub fsoffset_bitmap : ℕ
fsoffset_bitmap = 1

abbrev pub fsoffset_dir : ℕ
fsoffset_dir = 2

abbrev pub fsoffset_data : ℕ
fsoffset_data = 3

pub record DirEntry : Type 0 where
  pub file_name : ℕ → ℕ
  pub file_size : ℕ
  pub inode_offset : ℕ

abbrev pub Dir : Type 0
Dir = ℕ → DirEntry

pub record INode : Type 0 where
  pub data_blocks : ℕ → ℕ
  pub next : ℕ

abbrev pub Bitmap : Type 0
Bitmap = ℕ → ℕ

-- The bytes of a sector, by offset.
abbrev pub Sector : Type 0
Sector = ℕ → ℕ

-- Byte k of a little-endian word, and the word of four bytes.
unfoldable pub byte_of : ℕ → ℕ → ℕ
byte_of w k = w / 256 ^ k % 256

unfoldable pub word_at : Sector → ℕ → ℕ
word_at b i = b i + b (i + 1) * 256 + b (i + 2) * 65536 + b (i + 3) * 16777216

unfoldable pub encode_bitmap : Bitmap → Sector
encode_bitmap m k = byte_of (m (k / 4)) (k % 4)

unfoldable pub decode_bitmap : Sector → Bitmap
decode_bitmap b i = word_at b (4 * i)

unfoldable pub encode_inode : INode → Sector
encode_inode n k =
    byte_of (if ltb (k / 4) n_inode_datablock then n.data_blocks (k / 4) else n.next) (k % 4)

unfoldable pub decode_inode : Sector → INode
decode_inode b = record {
  data_blocks = λ i. word_at b (4 * i);
  next = word_at b (4 * n_inode_datablock);
}

-- Byte k of an entry: the name, then the two words.
unfoldable pub encode_entry : DirEntry → ℕ → ℕ
encode_entry e k =
    if ltb k 24
    then e.file_name k
    else if ltb k 28
    then byte_of e.file_size (k - 24)
    else byte_of e.inode_offset (k - 28)

unfoldable pub encode_dir : Dir → Sector
encode_dir d k = encode_entry (d (k / 32)) (k % 32)

unfoldable pub decode_dir : Sector → Dir
decode_dir b i = record {
  file_name = λ k. b (32 * i + k);
  file_size = word_at b (32 * i + 24);
  inode_offset = word_at b (32 * i + 28);
}
