-- ===== src/Fs/Open/Create.antt =====
-- `fs_open` of a name that no entry of the directory has.
use nju_oslab.Prelude.{
  ℕ, ◌<◌, ◌≡◌, ◌≢◌, refl, sym, ◌∙◌, Bool-cases, inl, inr, Option, true, false, some, none, lt→ltb,
  eq→==, ne→==, if◌then◌else◌, update, ok, Returns, returns, arith, pos, minus_one,
}
use nju_oslab.LibString.Laws.{strncmp-strncpy}
use nju_oslab.Fs.Layout.{entry_count, filename_length}
use nju_oslab.Fs.State.{Fs, need_washing, fdpool_size, fd_at, fd_put, dir_at, dir_put, mark_dir}
use nju_oslab.Fs.Open.{
  finished, e_dquot, e_noent, o_rdwr, o_creat, has_flag, internal_open, create_entry, slot_fits,
  create_file, after_scan, fs_open,
}
use nju_oslab.Fs.Open.Laws.{
  Named, IsFirstClosed, IsFirstFree, first_closed-some, free_slot, free_slot-some, free_slot-none,
  scan_dir-miss,
}
use nju_oslab.Fs.Open.Existing.{fresh, update-update}

-- What the loop leaves to do when no entry has the name.
missing :
    (path : ℕ → ℕ) (flags : ℕ) (s : Fs)
    → path 0 ≢ 0
    → ((m : ℕ) → m < entry_count → ¬ Named path s.dir m)
    → fs_open (some path) flags s
      ≡ after_scan path flags (finished (free_slot s.dir entry_count 0 none)) s
unfolding fs_open
missing path flags s ne absent =
    rw
      (
        ne→== (path 0) 0 ne,
        scan_dir-miss path flags entry_count 0 none s (λ m p. absent m (omega arith)),
      )
      refl

-- For a path that is not empty and that no entry of the directory has, without O_CREAT:
-- `fs_open` returns E_NOENT, and nothing changes.
pub fs_open-absent :
    (path : ℕ → ℕ) (flags : ℕ) (s : Fs)
    → path 0 ≢ 0
    → ((m : ℕ) → m < entry_count → ¬ Named path s.dir m)
    → has_flag flags o_creat ≡ false
    → fs_open (some path) flags s ≡ ok e_noent s
unfolding after_scan
fs_open-absent path flags s ne absent no_creat =
    missing path flags s ne absent ∙ stop (free_slot s.dir entry_count 0 none)
  where
    stop : (o : Option ℕ) → after_scan path flags (finished o) s ≡ ok e_noent s
    stop none = rw no_creat refl
    stop (some k) = rw no_creat refl

-- For a path that is not empty and that no entry of the directory has, with O_CREAT and every
-- entry in use: `fs_open` returns E_DQUOT, and nothing changes.
pub fs_open-full :
    (path : ℕ → ℕ) (flags : ℕ) (s : Fs)
    → path 0 ≢ 0
    → ((m : ℕ) → m < entry_count → ¬ Named path s.dir m)
    → has_flag flags o_creat ≡ true
    → ((m : ℕ) → m < entry_count → (s.dir m).file_name 0 ≢ 0)
    → fs_open (some path) flags s ≡ ok e_dquot s
unfolding after_scan
fs_open-full path flags s ne absent creat used =
    missing path flags s ne absent
    ∙ rw (free_slot-none s.dir entry_count 0 (λ m p. used m (omega arith)), creat) refl

-- For a path that is not empty and that no entry of the directory has, with every entry in use:
-- `fs_open` returns E_DQUOT with O_CREAT and E_NOENT without it, and nothing changes.
pub fs_open-refused :
    (path : ℕ → ℕ) (flags : ℕ) (s : Fs)
    → path 0 ≢ 0
    → ((m : ℕ) → m < entry_count → ¬ Named path s.dir m)
    → ((m : ℕ) → m < entry_count → (s.dir m).file_name 0 ≢ 0)
    → fs_open (some path) flags s ≡ ok (if has_flag flags o_creat then e_dquot else e_noent) s
fs_open-refused path flags s ne absent used = elim (Bool-cases (has_flag flags o_creat)) [
  | inl e ↦ rw e (fs_open-full path flags s ne absent e used)
  | inr e ↦ rw e (fs_open-absent path flags s ne absent e)
]

-- The file that O_CREAT makes: a descriptor at its start, and an entry with the name, of size 0,
-- with no inode yet.
pub record Created (path : ℕ → ℕ) (flags k j : ℕ) (s : Fs) (s' : Fs) : Type 0 where
  pub named : Named path s'.dir k
  pub empty : (s'.dir k).file_size ≡ 0
  pub no_inode : (s'.dir k).inode_offset ≡ minus_one
  pub others : (m : ℕ) → m ≢ k → s'.dir m ≡ s.dir m
  pub marked : s'.state_dir ≡ need_washing
  pub pool :
      s'.fd_pool
      ≡ update s.fd_pool j
          (fresh (s.fd_pool j) k (if has_flag flags o_rdwr then true else (s.fd_pool j).writable))
  pub bitmap : s'.bitmap ≡ s.bitmap
  pub disk : s'.disk ≡ s.disk

create_entry-Created :
    (path : ℕ → ℕ) (flags k j : ℕ) (s : Fs)
    → k < entry_count
    → j < fdpool_size
    → Returns (λ r s'. (r ≡ pos j) × Created path flags k j s s') (create_entry path flags k j s)
unfolding create_entry internal_open fd_at fd_put dir_at dir_put mark_dir
create_entry-Created path flags k j s lk lj =
    rw (lt→ltb k entry_count lk, lt→ltb j fdpool_size lj, eq→== j j refl)
      (returns (
        refl,
        record {
          named = rw (eq→== k k refl) (strncmp-strncpy (s.dir k).file_name path filename_length);
          empty = rw (eq→== k k refl) refl;
          no_inode = rw (eq→== k k refl) refl;
          others = λ m p. rw (ne→== k m (λ e. p (sym e))) refl;
          marked = refl;
          pool = update-update s.fd_pool j _ _;
          bitmap = refl;
          disk = refl;
        },
      ))

-- With O_CREAT, a path that is not empty and that no entry of the directory has, k the first
-- free entry and the place where the name belongs (the kernel first, every other file behind
-- it), and j the first closed descriptor: `fs_open` returns j. The entry k then has the name,
-- size 0 and no inode, the other entries are as they were and the directory is marked dirty;
-- the descriptor j stands at the start of k, writable if O_RDWR was given and otherwise as it
-- was left before; the other descriptors, the bitmap and the disk have not changed.
pub fs_open-Created :
    (path : ℕ → ℕ) (flags k j : ℕ) (s : Fs)
    → path 0 ≢ 0
    → ((m : ℕ) → m < entry_count → ¬ Named path s.dir m)
    → has_flag flags o_creat ≡ true
    → IsFirstFree s.dir k
    → slot_fits path k ≡ true
    → IsFirstClosed s.fd_pool j
    → Returns (λ r s'. (r ≡ pos j) × Created path flags k j s s') (fs_open (some path) flags s)
unfolding after_scan create_file
fs_open-Created path flags k j s ne absent creat free fits f =
    rw
      (
        missing path flags s ne absent,
        free_slot-some s.dir entry_count 0 k (omega arith) free.in_dir free.free free.used,
        creat,
        fits,
        first_closed-some s.fd_pool fdpool_size 0 j (omega arith) f.in_pool f.closed f.before,
      )
      (create_entry-Created path flags k j s free.in_dir f.in_pool)
