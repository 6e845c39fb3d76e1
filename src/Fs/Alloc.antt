-- ===== src/Fs/Alloc.antt =====
-- kernel/fs.c: `find_empty_inode`, the search for a free block.
pub mod Laws
use nju_oslab.Prelude.{
  ℕ, zero, suc, ◌+◌, ◌*◌, ◌/◌, ◌%◌, ◌^◌, bit_or, Option, none, some, not, ltb, ◌==◌, if◌then◌else◌,
  ok, panic, fault, hang, my_assert, ◌>>◌, update, not32,
}
use nju_oslab.Fs.Layout.{bitmap_size, bitmap_words}
use nju_oslab.Fs.State.{FsM, need_washing, is_garbage}

-- `while (!(j & 0x1)) { j >>= 1; bit_count += 1; }`: a word that is not 0 takes at most 32 rounds.
unfoldable pub low_zeros : ℕ → ℕ → ℕ → Option ℕ
low_zeros zero j bit_count = none
low_zeros (suc fuel) j bit_count =
    let rest = low_zeros fuel (j / 2) (bit_count + 1) in if j % 2 == 0 then rest else some bit_count

-- The body of the loop at a word with a free bit.
unfoldable pub take_bit : ℕ → FsM ℕ
take_bit i s = elim (low_zeros 32 (not32 (s.bitmap i)) 0) [
  | none ↦ hang
  | some bit_count ↦ ok (i * 32 + bit_count) (record s {
    state_bitmap = need_washing;
    bitmap = update s.bitmap i (bit_or (s.bitmap i) (2 ^ bit_count));
  })
]

-- The loop over i, with the rounds left. It runs to BITMAP_SIZE, and the array ends at
-- BITMAP_SIZE / 32.
unfoldable pub scan_bitmap : ℕ → ℕ → FsM ℕ
scan_bitmap zero i s = panic
scan_bitmap (suc n) i s =
    let rest = scan_bitmap n (i + 1) s in
    if ltb i bitmap_words then (if not32 (s.bitmap i) == 0 then rest else take_bit i s) else fault

unfoldable pub find_empty_inode : FsM ℕ
find_empty_inode s = (do my_assert (not (is_garbage s.state_bitmap)); scan_bitmap bitmap_size 0) s
