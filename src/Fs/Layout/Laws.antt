-- ===== src/Fs/Layout/Laws.antt =====
-- The structures of the disk survive being written to a sector and read back.
use nju_oslab.Prelude.{
  ℕ, ◌+◌, ◌-◌, ◌*◌, ◌/◌, ◌%◌, ◌^◌, ◌≤◌, ◌<◌, ◌≡◌, refl, ap, ap₂, ◌∙◌, lt→ltb, ge→ltb, arith,
}
use nju_oslab.Fs.Layout.{
  n_inode_datablock, DirEntry, Dir, INode, Bitmap, Sector, byte_of, word_at, encode_bitmap,
  decode_bitmap, encode_inode, decode_inode, encode_entry, encode_dir, decode_dir,
}

word_at-byte_of :
    (b : Sector) (i w : ℕ)
    → w < 2 ^ 32
    → b i ≡ byte_of w 0
    → b (i + 1) ≡ byte_of w 1
    → b (i + 2) ≡ byte_of w 2
    → b (i + 3) ≡ byte_of w 3
    → word_at b i ≡ w
unfolding byte_of word_at
word_at-byte_of b i w lt p q r t = omega arith

-- Four bytes at a multiple of four.
word_at-bytes :
    (b : Sector) (i w : ℕ)
    → w < 2 ^ 32
    → ((k : ℕ) → k < 4 → b (4 * i + k) ≡ byte_of w k)
    → word_at b (4 * i) ≡ w
word_at-bytes b i w lt h =
    word_at-byte_of b (4 * i) w lt (ap b (omega arith) ∙ h 0 (omega arith)) (h 1 (omega arith))
      (h 2 (omega arith)) (h 3 (omega arith))

pub decode-encode_bitmap :
    (m : Bitmap) (i : ℕ) → m i < 2 ^ 32 → decode_bitmap (encode_bitmap m) i ≡ m i
unfolding decode_bitmap encode_bitmap
decode-encode_bitmap m i lt =
    word_at-bytes (encode_bitmap m) i (m i) lt
      (λ k p. ap₂ (λ a b. byte_of (m a) b) (omega arith) (omega arith))

encode_inode-data :
    (n : INode) (i k : ℕ)
    → i < n_inode_datablock
    → k < 4
    → encode_inode n (4 * i + k) ≡ byte_of (n.data_blocks i) k
unfolding encode_inode
encode_inode-data n i k lt p =
    let e : (4 * i + k) / 4 ≡ i = omega arith in
    let f : (4 * i + k) % 4 ≡ k = omega arith in rw (e, f, lt→ltb i n_inode_datablock lt) refl

encode_inode-next :
    (n : INode) (k : ℕ) → k < 4 → encode_inode n (4 * n_inode_datablock + k) ≡ byte_of n.next k
unfolding encode_inode
encode_inode-next n k p =
    let e : (4 * n_inode_datablock + k) / 4 ≡ n_inode_datablock = omega arith in
    let f : (4 * n_inode_datablock + k) % 4 ≡ k = omega arith in rw (e, f) refl

-- An inode whose 127 block numbers and link are below 2 ^ 32 comes back from the bytes that
-- stand for it on the disk: every block number, and the link.
pub decode-encode_inode :
    (n : INode)
    → ((i : ℕ) → i < n_inode_datablock → n.data_blocks i < 2 ^ 32)
    → n.next < 2 ^ 32
    → ((i : ℕ)
        → i < n_inode_datablock
        → (decode_inode (encode_inode n)).data_blocks i ≡ n.data_blocks i)
      × ((decode_inode (encode_inode n)).next ≡ n.next)
unfolding decode_inode
decode-encode_inode n d l = (
  λ i p.
      word_at-bytes (encode_inode n) i (n.data_blocks i) (d i p) (λ k. encode_inode-data n i k p),
  word_at-bytes (encode_inode n) n_inode_datablock n.next l (encode_inode-next n),
)

-- Two entries with the same words and the same 24 bytes of name.
pub record SameEntry (e f : DirEntry) : Type 0 where
  pub name : (k : ℕ) → k < 24 → e.file_name k ≡ f.file_name k
  pub size : e.file_size ≡ f.file_size
  pub inode : e.inode_offset ≡ f.inode_offset

encode_dir-entry : (d : Dir) (i k : ℕ) → k < 32 → encode_dir d (32 * i + k) ≡ encode_entry (d i) k
unfolding encode_dir
encode_dir-entry d i k p = ap₂ (λ a b. encode_entry (d a) b) (omega arith) (omega arith)

entry_size : (e : DirEntry) (k : ℕ) → k < 4 → encode_entry e (24 + k) ≡ byte_of e.file_size k
unfolding encode_entry
entry_size e k p =
    let f : 24 + k - 24 ≡ k = omega arith in
    rw (ge→ltb (24 + k) 24 (omega arith), lt→ltb (24 + k) 28 (omega arith), f) refl

entry_inode : (e : DirEntry) (k : ℕ) → k < 4 → encode_entry e (28 + k) ≡ byte_of e.inode_offset k
unfolding encode_entry
entry_inode e k p =
    let f : 28 + k - 28 ≡ k = omega arith in
    rw (ge→ltb (28 + k) 24 (omega arith), ge→ltb (28 + k) 28 (omega arith), f) refl

entry_name : (e : DirEntry) (k : ℕ) → k < 24 → encode_entry e k ≡ e.file_name k
unfolding encode_entry
entry_name e k p = rw (lt→ltb k 24 p) refl

entry_word :
    (d : Dir) (i o w : ℕ)
    → o + 4 ≤ 32
    → w < 2 ^ 32
    → ((k : ℕ) → k < 4 → encode_entry (d i) (o + k) ≡ byte_of w k)
    → word_at (encode_dir d) (32 * i + o) ≡ w
entry_word d i o w fit lt h =
    word_at-byte_of (encode_dir d) (32 * i + o) w lt
      (ap (encode_dir d) (omega arith) ∙ byte 0 (omega arith)) (byte 1 (omega arith))
      (byte 2 (omega arith)) (byte 3 (omega arith))
  where
    byte : (k : ℕ) → k < 4 → encode_dir d (32 * i + o + k) ≡ byte_of w k
    byte k p = ap (encode_dir d) (omega arith) ∙ encode_dir-entry d i (o + k) (omega arith) ∙ h k p

-- Every entry of the directory comes back.
pub decode-encode_dir :
    (d : Dir) (i : ℕ)
    → (d i).file_size < 2 ^ 32
    → (d i).inode_offset < 2 ^ 32
    → SameEntry (decode_dir (encode_dir d) i) (d i)
unfolding decode_dir
decode-encode_dir d i a b = record {
  name = λ k p. encode_dir-entry d i k (omega arith) ∙ entry_name (d i) k p;
  size = entry_word d i 24 (d i).file_size (omega arith) a (entry_size (d i));
  inode = entry_word d i 28 (d i).inode_offset (omega arith) b (entry_inode (d i));
}
