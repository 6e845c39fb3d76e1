-- ===== src/Fs/Files/Tests.antt =====
-- A file of 700 bytes on a disk: its inode in block 0, its bytes in the blocks 1 and 2.
use nju_oslab.Prelude.{
  ℕ, zero, suc, ◌+◌, ◌*◌, ◌/◌, ◌%◌, ◌||◌, ◌<◌, ◌≡◌, ◌≢◌, refl, true, [], ◌∷◌, List, ◌==◌,
  if◌then◌else◌, some, ◌>>=◌, pos, Returns, arith,
}
use nju_oslab.LibString.{strncmp, strncmp_from}
use nju_oslab.Fs.Layout.{Sector, word_at, decode_inode}
use nju_oslab.Fs.State.{Fs}
use nju_oslab.Fs.Open.{fs_open}
use nju_oslab.Fs.Transfer.{fs_read}
use nju_oslab.Fs.Tests.{user_bin, few, first_free, kernel-other}
use nju_oslab.Fs.Files.{amount, received, inode_no, IsStored, Views}
use nju_oslab.Fs.Files.Refine.{Call, read, rewind, perform, expected, perform_refines}
use nju_oslab.Fs.Files.Opened.{file_of, fs_open-fs_read}

abbrev image : ℕ → Sector
image sector k =
    if sector == 3 then (if k == 0 then 1 else if k == 4 then 2 else 0) else (sector + k) % 256

abbrev mounted : Fs
mounted = record few { disk = image }

mounted-IsStored : IsStored image 0 700
unfolding inode_no decode_inode word_at
mounted-IsStored = record {
  started = λ _. omega arith;
  blocks = blocks;
  chain = λ k p. absurd (omega (arith, p));
}
  where
    blocks :
        (b : ℕ)
        → b * 512 < 700
        → (decode_inode (image ((inode_no image 0 (b / 127) + 3) % 268435456))).data_blocks
            (b % 127)
          ≢ 0
    blocks zero p = omega arith
    blocks (suc zero) p = omega arith
    blocks (suc (suc b)) p = absurd (omega (arith, p))

fs_open-fs_read_example :
    Returns
      (λ r _.
        (r.0 ≡ amount (file_of mounted 1) 600)
        × ((i : ℕ) → r.1 i ≡ received (file_of mounted 1) 600 (λ _. 0) i))
      ((do _ ← fs_open (some user_bin) 0; fs_read 0 (λ _. 0) (pos 600)) mounted)
unfolding strncmp strncmp_from
fs_open-fs_read_example =
    fs_open-fs_read user_bin (λ _. 0) 0 600 1 0 mounted (omega arith) (omega arith) refl
      kernel-other (omega arith) first_free (omega arith) mounted-IsStored

-- Two descriptors on the file.
abbrev shared : Fs
shared = record mounted { fd_pool = λ j. record (few.fd_pool j) { opened = true; index = 1 } }

shared-Views : (fd : ℕ) → (fd == 0) || (fd == 1) ≡ true → Views shared fd (file_of shared 1)
shared-Views fd on = (
  ground (arith, on),
  record {
    opened = refl;
    in_dir = omega arith;
    same_size = refl;
    small = omega arith;
    within = omega arith;
    stored = mounted-IsStored;
    same_byte = λ o. refl;
    reading = record {
      at = refl;
      clean = refl;
      state = refl;
      block = λ ne. absurd (ne refl);
      inode = λ p. absurd (omega (arith, p));
    };
  },
)

abbrev calls : List Call
calls = read 0 600 ∷ read 1 10 ∷ read 0 600 ∷ rewind 1 ∷ read 1 512 ∷ []

perform_refines_example :
    Returns
      (λ replies _. replies ≡ expected (λ _. 0) (λ _. file_of shared 1) calls)
      (perform (λ _. 0) calls shared)
perform_refines_example =
    perform_refines (λ _. 0) (λ fd. (fd == 0) || (fd == 1)) calls shared (λ _. file_of shared 1)
      shared-Views (refl, (refl, (refl, (refl, (refl, tt)))))
