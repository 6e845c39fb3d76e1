-- ===== src/Fs/Tests.antt =====
-- File systems on which the theorems on kernel/fs.c are used.
use nju_oslab.Prelude.{
  ℕ, zero, suc, ◌+◌, ◌-◌, ap, sym, ◌∙◌, ne→==, ◌^◌, ◌<◌, ◌≤◌, ◌≡◌, ◌≢◌, refl, true, false, [], ◌∷◌,
  get_or, ◌==◌, if◌then◌else◌, some, ok, panic, fault, Returns, arith, ◌>>=◌, ◌>>◌, pos, negsuc,
  bit, update,
}
use nju_oslab.LibString.{strncmp, strncmp_from}
use nju_oslab.Fs.Layout.{DirEntry, INode, encode_bitmap}
use nju_oslab.Fs.Layout.Laws.{decode-encode_bitmap}
use nju_oslab.Fs.State.{Fs, Fd, garbage, useful, need_washing}
use nju_oslab.Fs.Alloc.{find_empty_inode}
use nju_oslab.Fs.Alloc.Laws.{Allocates, find_empty_inode-Allocates, find_empty_inode_overrun}
use nju_oslab.Fs.Open.{kernel_bin, fs_open, e_access, e_dquot, slot_fits}
use nju_oslab.Fs.Open.Laws.{Named, IsFirstClosed}
use nju_oslab.Fs.Open.Existing.{fresh, with_fd, fs_open-existing, fs_write-existing, fs_open-kernel}
use nju_oslab.Fs.Open.Create.{Created, fs_open-refused, fs_open-Created}
use nju_oslab.Fs.Transfer.{fs_init, fs_flush, fs_read, fs_write, fs_lseek, seek_cur}
use nju_oslab.Fs.Transfer.Back.{fs_read-fs_write}
use nju_oslab.Fs.Transfer.Mount.{IsBacked, SameMeta, mount-flush}

-- "user.bin"
abbrev pub user_bin : ℕ → ℕ
user_bin i = get_or (b'u' ∷ b's' ∷ b'e' ∷ b'r' ∷ b'.' ∷ b'b' ∷ b'i' ∷ b'n' ∷ []) i 0

-- "log"
abbrev log : ℕ → ℕ
log i = get_or (b'l' ∷ b'o' ∷ b'g' ∷ []) i 0

abbrev pub entry : (ℕ → ℕ) → DirEntry
entry name = record { file_name = name; file_size = 700; inode_offset = 0 }

abbrev pub closed_fd : Fd
closed_fd = record {
  index = 0;
  offset = 0;
  buffer = λ _. 0;
  inode = record { data_blocks = λ _. 0; next = 0 };
  buffer_idx = 0;
  inode_idx = 0;
  buffer_state = garbage;
  inode_state = garbage;
  opened = false;
  writable = false;
}

-- The kernel, a program and `used` other files; the first three blocks are taken.
abbrev pub files : (ℕ → ℕ) → Fs
files third = record {
  bitmap = λ i. if i == 0 then 7 else 0;
  dir = λ i. entry (if i == 0 then kernel_bin else if i == 1 then user_bin else third);
  state_bitmap = useful;
  state_dir = need_washing;
  fd_pool = λ _. closed_fd;
  disk = λ _ _. 0;
}

-- All the entries behind the program are free, or have a file.
abbrev pub few : Fs
few = files (λ _. 0)

abbrev many : Fs
many = files (λ i. get_or (b'x' ∷ []) i 0)

few-words : (i : ℕ) → few.bitmap i < 2 ^ 32
few-words i = ground arith

find_empty_inode-Allocates_example :
    (n : ℕ) × (s' : Fs) × (find_empty_inode few ≡ ok n s') × (n ≤ 3) × Allocates few n s'
unfolding bit
find_empty_inode-Allocates_example =
    find_empty_inode-Allocates few 3 few-words refl (omega arith) refl

abbrev full : Fs
full = record few { bitmap = λ _. 2 ^ 32 - 1 }

find_empty_inode_overrun_example : find_empty_inode full ≡ fault
find_empty_inode_overrun_example = find_empty_inode_overrun full refl (λ i p. refl)

pub first_free : IsFirstClosed few.fd_pool 0
first_free = record { in_pool = omega arith; closed = refl; before = λ m p. absurd (omega arith) }

pub kernel-other : (m : ℕ) → m < 1 → ¬ Named user_bin few.dir m
unfolding strncmp strncmp_from
kernel-other zero p e = absurd (omega (arith, e))
kernel-other (suc m) p e = absurd (omega arith)

fs_open-existing_example :
    fs_open (some user_bin) 2 few ≡ ok (pos 0) (with_fd few 0 (fresh closed_fd 1 false))
unfolding strncmp strncmp_from
fs_open-existing_example =
    fs_open-existing user_bin 2 few 1 0 (omega arith) (omega arith) refl kernel-other first_free
      (omega arith)

fs_write-existing_example : (do fd ← fs_open (some user_bin) 2; fs_write 0 log (pos 3)) few ≡ panic
unfolding strncmp strncmp_from
fs_write-existing_example =
    fs_write-existing user_bin 2 few 1 0 (omega arith) (omega arith) refl kernel-other first_free
      (omega arith) refl log (pos 3)

fs_open-kernel_example :
    fs_open (some kernel_bin) 2 few
    ≡ ok e_access (with_fd few 0 (record closed_fd { index = 0; writable = true }))
unfolding strncmp strncmp_from
fs_open-kernel_example = fs_open-kernel kernel_bin 2 few 0 (omega arith) refl first_free

third-entry : (third : ℕ → ℕ) (m : ℕ) → (files third).dir (suc (suc m)) ≡ entry third
third-entry third m =
    rw (ne→== (suc (suc m)) 0 (omega arith), ne→== (suc (suc m)) 1 (omega arith)) refl

-- No entry is called "log", whether the third name is empty or not.
log-absent : (m : ℕ) → ¬ Named log few.dir m
unfolding strncmp strncmp_from
log-absent zero e = absurd (omega (arith, e))
log-absent (suc zero) e = absurd (omega (arith, e))
log-absent (suc (suc m)) e =
    absurd (omega (arith, sym (ap (λ d. strncmp log d.file_name 24) (third-entry (λ _. 0) m)) ∙ e))

log-absent_many : (m : ℕ) → ¬ Named log many.dir m
unfolding strncmp strncmp_from
log-absent_many zero e = absurd (omega (arith, e))
log-absent_many (suc zero) e = absurd (omega (arith, e))
log-absent_many (suc (suc m)) e = absurd (
    omega (
      arith,
      sym (ap (λ d. strncmp log d.file_name 24) (third-entry (λ i. get_or (b'x' ∷ []) i 0) m)) ∙ e,
    ))

many-used : (m : ℕ) → (many.dir m).file_name 0 ≢ 0
many-used zero e = absurd (omega (arith, e))
many-used (suc zero) e = absurd (omega (arith, e))
many-used (suc (suc m)) e =
    absurd (
      omega
        (arith, sym (ap (λ d. d.file_name 0) (third-entry (λ i. get_or (b'x' ∷ []) i 0) m)) ∙ e))

fs_open-refused_example : fs_open (some log) 64 many ≡ ok e_dquot many
fs_open-refused_example =
    fs_open-refused log 64 many (omega arith) (λ m p. log-absent_many m) (λ m p. many-used m)

few-used : (m : ℕ) → m < 2 → (few.dir m).file_name 0 ≢ 0
few-used zero p e = absurd (omega (arith, e))
few-used (suc zero) p e = absurd (omega (arith, e))
few-used (suc (suc m)) p e = absurd (omega arith)

fs_open-Created_example :
    Returns (λ r s'. (r ≡ pos 0) × Created log 66 2 0 few s') (fs_open (some log) 66 few)
unfolding slot_fits strncmp strncmp_from
fs_open-Created_example =
    fs_open-Created log 66 2 0 few (omega arith) (λ m p. log-absent m) refl
      record { in_dir = omega arith; free = refl; used = few-used } refl first_free

-- The directory is dirty, and the disk has the bitmap.
abbrev saved : Fs
saved = record few { disk = update few.disk 1 (encode_bitmap few.bitmap) }

saved-words : (i : ℕ) → saved.bitmap i < 2 ^ 32
saved-words i = ground arith

saved-IsBacked : IsBacked saved
saved-IsBacked = record {
  sizes = λ i. omega arith;
  inodes = λ i. omega arith;
  words = saved-words;
  clean_dir = λ e i p. absurd (ground (arith, e));
  clean_bitmap = λ e i p. decode-encode_bitmap saved.bitmap i (saved-words i);
}

mount-flush_example : Returns (λ _ t. SameMeta saved t) ((do fs_flush; fs_init) saved)
mount-flush_example = mount-flush saved saved-IsBacked

abbrev inode : INode
inode = record { data_blocks = λ i. i + 5; next = 9 }

-- The descriptor 0 at byte 600 of the program, with its second block.
abbrev busy : Fs
busy = record few {
  fd_pool = λ _. record closed_fd {
    index = 1;
    offset = 600;
    buffer_state = useful;
    opened = true;
    writable = true;
  };
}

fs_read-fs_write_example :
    Returns
      (λ r _. (r.0 ≡ 3) × (r.1 2 ≡ b'g'))
      ((do _ ← fs_write 0 log (pos 3); fs_lseek 0 (negsuc 2) seek_cur; fs_read 0 (λ _. 0) (pos 3))
        busy)
fs_read-fs_write_example =
    fs_read-fs_write 0 2 2 log (λ _. 0) busy
      record {
        in_pool = omega arith;
        in_dir = omega arith;
        opened = refl;
        held = refl;
        within = omega arith;
        small = omega arith;
        sized = omega arith;
      }
      refl (omega arith)
