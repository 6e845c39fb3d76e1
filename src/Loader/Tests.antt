-- ===== src/Loader/Tests.antt =====
-- A disk whose first file is a program of one sector, at which the theorem on boot/main.c is used.
use nju_oslab.Prelude.{ℕ, zero, suc, ◌/◌, ◌%◌, ◌^◌, ◌<◌, ◌≡◌, refl, List, [], ◌∷◌, arith, Returns}
use nju_oslab.Fs.Layout.{word_at, decode_inode}
use nju_oslab.Fs.Files.{inode_no}
use nju_oslab.Device.Ide.{is_drdy}
use nju_oslab.Device.Ide.Sectors.{lba}
use nju_oslab.Start.{elf_at, half_at, proghdr_at}
use nju_oslab.Start.Tests.{image}
use nju_oslab.Loader.{Loader, bootmain}
use nju_oslab.Loader.Disk.{Serves}
use nju_oslab.Loader.Segment.{IsNear}
use nju_oslab.Loader.Program.{AllLoadable, booted_byte, bootmain-HasBooted}

-- The sector that the last command asks for.
abbrev asked : List (ℕ × ℕ) → ℕ
asked ((_, _) ∷ (_, top) ∷ (_, high) ∷ (_, mid) ∷ (_, low) ∷ _) = lba low mid high top
asked _ = 0

abbrev fresh_loader : Loader
fresh_loader = record {
  ram = λ _. 9;
  ports = record {
    answer = λ _ _. 0x50;
    reads = 0;
    written = [];
    sent_at = [];
    sector = λ w _ _. image (asked w);
    blocks = 0;
    stored = [];
  };
}

fresh_loader-Serves : Serves image fresh_loader.ports
unfolding is_drdy
fresh_loader-Serves = record { drdy = λ t. refl; block = λ low mid high top before r n drive. refl }

only_inode : (k : ℕ) → inode_no image 0 k ≡ 0
unfolding inode_no decode_inode word_at
only_inode zero = refl
only_inode (suc k) = rw (only_inode k) refl

few_blocks : (i : ℕ) → (decode_inode (image 3)).data_blocks i < 2 ^ 27
unfolding decode_inode word_at
few_blocks zero = omega arith
few_blocks (suc zero) = omega arith
few_blocks (suc (suc i)) = ground arith

image-IsNear : IsNear image
unfolding decode_inode word_at
image-IsNear = record {
  inodes = λ k. rw (only_inode k) (omega arith);
  blocks = λ b. rw (only_inode (b / 127)) (few_blocks (b % 127));
}

image-AllLoadable : AllLoadable (image 4) 1 52 0
unfolding proghdr_at word_at
image-AllLoadable = (
  (λ _. record {
    ahead = omega arith;
    filled = omega arith;
    below = omega arith;
    sectors = omega arith;
    small = omega arith;
  }),
  tt,
)

bootmain-HasBooted_example :
    Returns
      (λ entry t.
        (entry ≡ 0x804_8054)
        × ((w : ℕ) → w < 2 ^ 32 → t.ram w ≡ booted_byte image (image 4) 1 52 w 9))
      (bootmain 1 fresh_loader)
unfolding elf_at half_at word_at
bootmain-HasBooted_example =
    bootmain-HasBooted image 0 image-IsNear fresh_loader (omega arith) image-AllLoadable
      fresh_loader-Serves
