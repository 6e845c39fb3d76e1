-- ===== src/Fs/Transfer/Mount.antt =====
-- What `fs_flush` leaves on the disk is what the next `fs_init` brings back.
use nju_oslab.Prelude.{
  ℕ, ◌^◌, ◌<◌, ◌≡◌, false, arith, Returns, returns, Bool-cases, inl, inr, if◌then◌else◌, ◌>>◌,
}
use nju_oslab.Fs.Layout.{
  entry_count, bitmap_words, fsoffset_dir, fsoffset_bitmap, encode_dir, decode_dir, encode_bitmap,
  decode_bitmap,
}
use nju_oslab.Fs.Layout.Laws.{SameEntry, decode-encode_dir, decode-encode_bitmap}
use nju_oslab.Fs.State.{Fs, is_dirty}
use nju_oslab.Fs.Transfer.{fs_init, fs_flush, flush_dir, flush_bitmap}

-- The words in memory fit their types, and where a copy is not marked dirty the disk holds it.
pub record IsBacked (s : Fs) : Type 0 where
  pub sizes : (i : ℕ) → (s.dir i).file_size < 2 ^ 32
  pub inodes : (i : ℕ) → (s.dir i).inode_offset < 2 ^ 32
  pub words : (i : ℕ) → s.bitmap i < 2 ^ 32
  pub clean_dir :
      is_dirty s.state_dir ≡ false
      → (i : ℕ) → i < entry_count
      → SameEntry (decode_dir (s.disk fsoffset_dir) i) (s.dir i)
  pub clean_bitmap :
      is_dirty s.state_bitmap ≡ false
      → (i : ℕ) → i < bitmap_words
      → decode_bitmap (s.disk fsoffset_bitmap) i ≡ s.bitmap i

-- Two states with the same directory and the same bitmap, as far as the arrays reach.
pub record SameMeta (s t : Fs) : Type 0 where
  pub dir : (i : ℕ) → i < entry_count → SameEntry (t.dir i) (s.dir i)
  pub bitmap : (i : ℕ) → i < bitmap_words → t.bitmap i ≡ s.bitmap i

-- The two sectors after a flush.
flushed_dir :
    (s : Fs)
    → (flush_bitmap (flush_dir s)).disk fsoffset_dir
      ≡ (if is_dirty s.state_dir then encode_dir s.dir else s.disk fsoffset_dir)
unfolding flush_dir flush_bitmap
flushed_dir s = ground arith

flushed_bitmap :
    (s : Fs)
    → (flush_bitmap (flush_dir s)).disk fsoffset_bitmap
      ≡ (if is_dirty s.state_bitmap then encode_bitmap s.bitmap else s.disk fsoffset_bitmap)
unfolding flush_dir flush_bitmap
flushed_bitmap s = ground arith

module _ (s : Fs) (b : IsBacked s) where
  dir_survives :
      (i : ℕ)
      → i < entry_count
      → SameEntry (decode_dir ((flush_bitmap (flush_dir s)).disk fsoffset_dir) i) (s.dir i)
  dir_survives i p = rw (flushed_dir s) (elim (Bool-cases (is_dirty s.state_dir)) [
    | inl e ↦ rw e (decode-encode_dir s.dir i (b.sizes i) (b.inodes i))
    | inr e ↦ rw e (b.clean_dir e i p)
  ])

  bitmap_survives :
      (i : ℕ)
      → i < bitmap_words
      → decode_bitmap ((flush_bitmap (flush_dir s)).disk fsoffset_bitmap) i ≡ s.bitmap i
  bitmap_survives i p = rw (flushed_bitmap s) (elim (Bool-cases (is_dirty s.state_bitmap)) [
    | inl e ↦ rw e (decode-encode_bitmap s.bitmap i (b.words i))
    | inr e ↦ rw e (b.clean_bitmap e i p)
  ])

-- If every word of the directory and of the bitmap fits 32 bits and each copy that is not
-- marked dirty agrees with its sector, then `fs_flush` followed by `fs_init` returns, and
-- brings back every entry of the directory (24 bytes of name and two words) and every word of
-- the bitmap.
pub mount-flush : (s : Fs) → IsBacked s → Returns (λ _ t. SameMeta s t) ((do fs_flush; fs_init) s)
unfolding fs_flush fs_init
mount-flush s b = returns (record { dir = dir_survives s b; bitmap = bitmap_survives s b })
