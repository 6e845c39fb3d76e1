-- ===== src/Fs/Open/Existing.antt =====
-- `fs_open` of a file that is in the directory, and what a write on the descriptor then does.
use nju_oslab.Prelude.{
  ℕ, ◌<◌, ◌≡◌, ◌≢◌, refl, ap, ◌∙◌, Bool, Bool-cases, inl, inr, true, false, some, none, lt→ltb,
  eq→==, ne→==, if◌then◌else◌, update, ok, panic, fault, hang, and_then, Run, fun_ext, arith, ℤ,
  pos, pure, ◌>>=◌,
}
use nju_oslab.Fs.Layout.{entry_count}
use nju_oslab.Fs.State.{Fs, Fd, garbage, fdpool_size, fd_at, fd_put}
use nju_oslab.Fs.Open.{
  e_access, o_rdwr, has_flag, internal_open, open_entry, returned, after_scan, fs_open,
}
use nju_oslab.Fs.Open.Laws.{Named, IsFirstClosed, scan_dir-hit}
use nju_oslab.Fs.Transfer.{fs_write}

-- The descriptor that a file at the entry i gets.
abbrev pub fresh : Fd → ℕ → Bool → Fd
fresh d i w = record d {
  index = i;
  offset = 0;
  buffer_state = garbage;
  inode_state = garbage;
  opened = true;
  writable = w;
}

abbrev pub with_fd : Fs → ℕ → Fd → Fs
with_fd s j d = record s { fd_pool = update s.fd_pool j d }

pub update-update {ℓ} :
    {A : Type ℓ} (f : ℕ → A) (j : ℕ) (v w : A) → update (update f j v) j w ≡ update f j w
update-update f j v w = fun_ext (λ k. ground arith)

open_entry-other :
    (i j flags : ℕ) (s : Fs)
    → j < fdpool_size
    → i ≢ 0
    → open_entry i j flags s
      ≡ ok (pos j) (with_fd s j (fresh (s.fd_pool j) i (s.fd_pool j).writable))
unfolding open_entry internal_open fd_at fd_put
open_entry-other i j flags s lt ne =
    rw (lt→ltb j fdpool_size lt, ne→== i 0 ne, eq→== j j refl)
      (ap (λ p. ok (pos j) (record s { fd_pool = p })) (update-update s.fd_pool j _ _))

open_entry-kernel :
    (j flags : ℕ) (s : Fs)
    → j < fdpool_size
    → open_entry 0 j flags s ≡ (
        if has_flag flags o_rdwr
        then ok e_access (with_fd s j (record (s.fd_pool j) { index = 0; writable = true }))
        else ok (pos j) (with_fd s j (fresh (s.fd_pool j) 0 false)))
unfolding open_entry internal_open fd_at fd_put
open_entry-kernel j flags s lt = elim (Bool-cases (has_flag flags o_rdwr)) [
  | inl e ↦ rw (lt→ltb j fdpool_size lt, e) refl
  | inr e ↦
      rw (lt→ltb j fdpool_size lt, e, eq→== j j refl)
        (ap (λ p. ok (pos j) (record s { fd_pool = p })) (update-update s.fd_pool j _ _))
]

after_scan-returned :
    (path : ℕ → ℕ) (flags : ℕ) (r : Run Fs ℤ)
    → and_then (and_then r (λ v. pure (returned v))) (after_scan path flags) ≡ r
unfolding after_scan
after_scan-returned path flags (ok v t) = refl
after_scan-returned path flags panic = refl
after_scan-returned path flags fault = refl
after_scan-returned path flags hang = refl

module _ (path : ℕ → ℕ) (flags : ℕ) (s : Fs) (k j : ℕ) (ne : path 0 ≢ 0) (lt : k < entry_count)
    (named : Named path s.dir k) (first : (m : ℕ) → m < k → ¬ Named path s.dir m)
    (f : IsFirstClosed s.fd_pool j) where
  fs_open-open_entry : fs_open (some path) flags s ≡ open_entry k j flags s
  unfolding fs_open
  fs_open-open_entry =
      rw
        (
          ne→== (path 0) 0 ne,
          scan_dir-hit path flags entry_count 0 none s k j (omega arith) lt named first f,
        )
        (after_scan-returned path flags (open_entry k j flags s))

  -- For a path that is not empty, k the first entry of the directory with that name, k not the
  -- first entry, and j the first closed descriptor: `fs_open` returns j, whatever the flags,
  -- and the descriptor stands at the start of k with nothing in its buffers. Whether it may be
  -- written is what the descriptor's last user left: the flags say nothing.
  pub fs_open-existing :
      k ≢ 0
      → fs_open (some path) flags s
        ≡ ok (pos j) (with_fd s j (fresh (s.fd_pool j) k (s.fd_pool j).writable))
  fs_open-existing nz = fs_open-open_entry ∙ open_entry-other k j flags s f.in_pool nz

  -- Under the conditions of `fs_open-existing`, and with the first closed descriptor never left
  -- writable, a `fs_write` on the descriptor that `fs_open` gave panics, for any buffer and
  -- length, also when the file was opened with O_RDWR.
  pub fs_write-existing :
      k ≢ 0
      → (s.fd_pool j).writable ≡ false
      → (buf : ℕ → ℕ) (len : ℤ) → (do fd ← fs_open (some path) flags; fs_write j buf len) s ≡ panic
  unfolding fs_write fd_at
  fs_write-existing nz w buf len =
      rw (fs_open-existing nz, lt→ltb j fdpool_size f.in_pool, eq→== j j refl, w) refl

-- For a path that is not empty and that the first entry of the directory has, j the first
-- closed descriptor: with O_RDWR `fs_open` returns E_ACCESS and leaves the closed descriptor
-- marked as writable; without it, it returns j, which stands at the start of the file and may
-- not be written.
pub fs_open-kernel :
    (path : ℕ → ℕ) (flags : ℕ) (s : Fs) (j : ℕ)
    → path 0 ≢ 0
    → Named path s.dir 0
    → IsFirstClosed s.fd_pool j
    → fs_open (some path) flags s ≡ (
        if has_flag flags o_rdwr
        then ok e_access (with_fd s j (record (s.fd_pool j) { index = 0; writable = true }))
        else ok (pos j) (with_fd s j (fresh (s.fd_pool j) 0 false)))
fs_open-kernel path flags s j ne named f =
    fs_open-open_entry path flags s 0 j ne (omega arith) named (λ m p. absurd (omega arith)) f
    ∙ open_entry-kernel j flags s f.in_pool
