-- ===== src/Fs/Transfer/Back.antt =====
-- What was written to a block is read back from it.
use nju_oslab.Prelude.{
  ℕ, suc, ◌+◌, ◌-◌, ◌%◌, ◌^◌, ◌≤◌, ◌<◌, ◌≡◌, refl, ap, subst, ◌∙◌, sym, true, Bool-cases, inl, inr,
  ltb, leb, lt→ltb, ltb→ge, eq→==, copy, Returns, returns, ◌>>=◌, ◌>>◌, arith, pos, negsuc,
}
use nju_oslab.Fs.Layout.{sectsize, entry_count}
use nju_oslab.Fs.State.{Fs, Fd, is_garbage, fdpool_size}
use nju_oslab.Fs.Transfer.{fs_read, fs_write, fs_lseek, seek_cur}
use nju_oslab.Fs.Transfer.Block.{
  HoldsBlock, fd_set, grown, written, after_write, sought, write_loop-within, fs_write-opened,
  fs_read-opened, read_loop-within, fs_lseek-back,
}

grown-fd_pool : (s : Fs) (index offset : ℕ) → (grown s index offset).fd_pool ≡ s.fd_pool
grown-fd_pool s index offset = elim (Bool-cases (ltb (s.dir index).file_size offset)) [
  | inl e ↦ rw e refl
  | inr e ↦ rw e refl
]

-- The size after a write: up to its end at least, and below 2 GB.
grown-size :
    (s : Fs) (index offset : ℕ)
    → offset < 2 ^ 31
    → (s.dir index).file_size < 2 ^ 31
    → (offset ≤ ((grown s index offset).dir index).file_size)
      × (((grown s index offset).dir index).file_size < 2 ^ 31)
grown-size s index offset p q = elim (Bool-cases (ltb (s.dir index).file_size offset)) [
  | inl e ↦ rw (e, eq→== index index refl) (omega (arith, p))
  | inr e ↦ rw e (omega (arith, ltb→ge (s.dir index).file_size offset e, q))
]

-- Bytes copied to an offset and back from it.
copy-copy :
    (into buffer buf : ℕ → ℕ) (o n j : ℕ)
    → j < n
    → copy into 0 (copy buffer o buf 0 n) o n j ≡ buf j
copy-copy into buffer buf o n j lt =
    let there : leb 0 j ≡ true = ground arith in
    let back : leb o (o + (j - 0)) ≡ true = ground arith in
    rw (there, lt→ltb j (0 + n) (omega arith), back, lt→ltb (o + (j - 0)) (o + n) (omega arith))
      (ap buf (omega arith))

-- The descriptor d after n + 1 bytes were written, with the file t around it.
record HasWritten (d : Fd) (t : Fs) (fd n : ℕ) (buf : ℕ → ℕ) : Type 0 where
  in_pool : fd < fdpool_size
  state : t.fd_pool fd ≡ written d buf (suc n)
  in_dir : d.index < entry_count
  opened : d.opened ≡ true
  within : d.offset % sectsize + suc n < sectsize
  small : d.offset + suc n < 2 ^ 31
  sized : (t.dir d.index).file_size < 2 ^ 31
  enough : d.offset + suc n ≤ (t.dir d.index).file_size

module _ (fd n : ℕ) (buf into : ℕ → ℕ) (d : Fd) (t : Fs) (h : HasWritten d t fd n buf) where
  sought_fd :
      (sought t fd d.offset).fd_pool fd ≡ record (written d buf (suc n)) { offset = d.offset }
  sought_fd =
      rw (eq→== fd fd refl)
        (ap {A = Fd} {B = Fd} (λ (x : Fd). record x { offset = d.offset }) h.state)

  sought-HoldsBlock : HoldsBlock (sought t fd d.offset) fd (suc n)
  sought-HoldsBlock = record {
    in_pool = h.in_pool;
    in_dir = subst (λ (x : Fd). x.index < entry_count) (sym sought_fd) h.in_dir;
    opened = ap (λ (x : Fd). x.opened) sought_fd ∙ h.opened;
    held = ap (λ (x : Fd). is_garbage x.buffer_state) sought_fd;
    within = subst (λ (x : Fd). x.offset % sectsize + suc n < sectsize) (sym sought_fd) h.within;
    small = subst (λ (x : Fd). x.offset + suc n < 2 ^ 31) (sym sought_fd) h.small;
    sized = subst (λ (x : Fd). (t.dir x.index).file_size < 2 ^ 31) (sym sought_fd) h.sized;
  }

  written-byte :
      (j : ℕ)
      → j < suc n
      → copy into 0
          ((sought t fd d.offset).fd_pool fd).buffer
          (((sought t fd d.offset).fd_pool fd).offset % sectsize)
          (suc n)
          j
        ≡ buf j
  written-byte j lt =
      ap (λ (x : Fd). copy into 0 x.buffer (x.offset % sectsize) (suc n) j) sought_fd
      ∙ copy-copy into d.buffer buf (d.offset % sectsize) (suc n) j lt

  read_back :
      (j : ℕ)
      → j < suc n
      → Returns
          (λ r _. (r.0 ≡ suc n) × (r.1 j ≡ buf j))
          ((do fs_lseek fd (negsuc n) seek_cur; fs_read fd into (pos (suc n))) t)
  read_back j lt =
      rw
        (fs_lseek-back fd n d.offset t h.in_pool (ap (λ (x : Fd). x.opened) h.state ∙ h.opened)
          (ap (λ (x : Fd). x.offset) h.state) h.small)
        (subst (Returns (λ r _. (r.0 ≡ suc n) × (r.1 j ≡ buf j)))
          (sym (
            fs_read-opened fd (suc n) into (sought t fd d.offset) sought-HoldsBlock (
              subst (λ (x : Fd). x.offset + suc n ≤ (t.dir x.index).file_size) (sym sought_fd)
                h.enough)
            ∙ read_loop-within fd n into (sought t fd d.offset) sought-HoldsBlock))
          (returns (refl, written-byte j lt)))

-- With an open and writable descriptor of a file below 2 GB, a block in its buffer, and n + 1
-- bytes from its offset on that end before the block does: `fs_write` of n + 1 bytes,
-- `fs_lseek` back over them with SEEK_CUR and `fs_read` of as many return, the read has them
-- all, and byte j of them, for each j up to n, is the one written, whether or not the write
-- made the file longer.
pub fs_read-fs_write :
    (fd n j : ℕ) (buf into : ℕ → ℕ) (s : Fs)
    → HoldsBlock s fd (suc n)
    → (s.fd_pool fd).writable ≡ true
    → j < suc n
    → Returns
        (λ r _. (r.0 ≡ suc n) × (r.1 j ≡ buf j))
        ((do
          _ ← fs_write fd buf (pos (suc n))
          fs_lseek fd (negsuc n) seek_cur
          fs_read fd into (pos (suc n)))
          s)
fs_read-fs_write fd n j buf into s b w lt =
    let d : Fd = s.fd_pool fd in
    let t : Fs = fd_set s fd (written d buf (suc n)) in
    let size = grown-size t d.index (d.offset + suc n) b.small b.sized in
    rw (fs_write-opened fd (suc n) buf s b.in_pool b.opened w, write_loop-within fd n buf s b)
      (read_back fd n buf into d (after_write s fd buf (suc n))
        record {
          in_pool = b.in_pool;
          state =
              ap (λ f. f fd) (grown-fd_pool t d.index (d.offset + suc n))
              ∙ rw (eq→== fd fd refl) refl;
          in_dir = b.in_dir;
          opened = b.opened;
          within = b.within;
          small = b.small;
          sized = size.1;
          enough = size.0;
        }
        j lt)
