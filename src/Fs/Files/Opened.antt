-- ===== src/Fs/Files/Opened.antt =====
-- `fs_open` of a file on the disk, and the first read.
use nju_oslab.Prelude.{
  ℕ, ◌<◌, ◌^◌, ◌≡◌, ◌≢◌, refl, eq→==, some, ◌>>=◌, pos, arith, Returns, Returns-mono, Bool,
}
use nju_oslab.Fs.Layout.{entry_count}
use nju_oslab.Fs.State.{Fs, Fd}
use nju_oslab.Fs.Open.{fs_open}
use nju_oslab.Fs.Open.Laws.{Named, IsFirstClosed}
use nju_oslab.Fs.Open.Existing.{fresh, with_fd, fs_open-existing}
use nju_oslab.Fs.Transfer.{fs_read}
use nju_oslab.Fs.Files.{OpenFile, amount, received, file_byte, IsStored, Sees}
use nju_oslab.Fs.Files.Session.{fs_read-HasReceived}

-- The file of the entry k, from its start on.
abbrev pub file_of : Fs → ℕ → OpenFile
file_of s k = record {
  size = (s.dir k).file_size;
  byte = file_byte s.disk (s.dir k).inode_offset;
  position = 0;
}

pub fresh-Sees :
    (s : Fs) (d : Fd) (k : ℕ) (w : Bool)
    → k < entry_count
    → (s.dir k).file_size < 2 ^ 31
    → IsStored s.disk (s.dir k).inode_offset (s.dir k).file_size
    → Sees s.disk s.dir (fresh d k w) (file_of s k)
fresh-Sees s d k w lt small st = record {
  opened = refl;
  in_dir = lt;
  same_size = refl;
  small = small;
  within = omega arith;
  stored = st;
  same_byte = λ o. refl;
  reading = record {
    at = refl;
    clean = refl;
    state = refl;
    block = λ ne. absurd (ne refl);
    inode = λ p. absurd (omega (arith, p));
  };
}

-- For a path that is not empty, k the first entry of the directory with that name, k not the
-- first entry, its file below 2 GB and on the disk with all its blocks and inodes, and j the
-- first closed descriptor: after `fs_open`, whatever the flags, a `fs_read` through j of any
-- length gives the first bytes of the file, up to the length or the end of the file, and leaves
-- the rest of the buffer alone.
pub fs_open-fs_read :
    (path into : ℕ → ℕ) (flags len k j : ℕ) (s : Fs)
    → path 0 ≢ 0
    → k < entry_count
    → Named path s.dir k
    → ((m : ℕ) → m < k → ¬ Named path s.dir m)
    → k ≢ 0
    → IsFirstClosed s.fd_pool j
    → (s.dir k).file_size < 2 ^ 31
    → IsStored s.disk (s.dir k).inode_offset (s.dir k).file_size
    → Returns
        (λ r _.
          (r.0 ≡ amount (file_of s k) len) × ((i : ℕ) → r.1 i ≡ received (file_of s k) len into i))
        ((do _ ← fs_open (some path) flags; fs_read j into (pos len)) s)
fs_open-fs_read path into flags len k j s ne lt named first nz f small st =
    let d : Fd = fresh (s.fd_pool j) k (s.fd_pool j).writable in
    let sees : Sees s.disk s.dir ((with_fd s j d).fd_pool j) (file_of s k) =
      rw (eq→== j j refl) (fresh-Sees s (s.fd_pool j) k (s.fd_pool j).writable lt small st) in
    rw (fs_open-existing path flags s k j ne lt named first f nz) (
      Returns-mono (fs_read-HasReceived (with_fd s j d) j (file_of s k) f.in_pool sees into len)
        (λ r _ got. (got.0, got.1)))
