-- ===== src/Start/Tests.antt =====
-- A program of one sector on the disk: its header, and one segment of 100 bytes and 100 zeroes.
use nju_oslab.Prelude.{
  ℕ, zero, suc, ◌+◌, ◌*◌, ◌/◌, ◌%◌, ◌^◌, ◌<◌, ◌≢◌, refl, true, [], ◌==◌, if◌then◌else◌, arith,
  Returns,
}
use nju_oslab.LibString.{strncmp, strncmp_from}
use nju_oslab.Fs.Layout.{
  Sector, word_at, byte_of, decode_inode, decode_dir, encode_dir, encode_entry,
}
use nju_oslab.Fs.Tests.{user_bin, few, first_free, kernel-other}
use nju_oslab.Fs.Files.{inode_no, IsStored}
use nju_oslab.Fs.Files.Opened.{file_of}
use nju_oslab.Kernel.Tests.{alone}
use nju_oslab.Kernel.Trap.{gdt}
use nju_oslab.Mmu.{setgate}
use nju_oslab.Start.{Machine, elf_at, half_at, proghdr_at, userprog_load, kernel_init}
use nju_oslab.Start.Init.{mounted, HasBooted, kernel_init-HasBooted}
use nju_oslab.Fs.Open.Laws.{Named}
use nju_oslab.Start.Load.{IsProgram}
use nju_oslab.Start.First.{HasFirst, userprog_load-HasFirst}

-- e_magic; e_entry, 0x8048054; e_phoff, 52; e_phnum, 1; then p_type, 1; p_pa, 0x8048000; p_filesz, 100;
-- p_memsz, 200.
abbrev program : Sector
program k =
    if k == 0
    then 127
    else if k == 1
    then 69
    else if k == 2
    then 76
    else if k == 3
    then 70
    else if k == 24
    then 84
    else if k == 25
    then 128
    else if k == 26
    then 4
    else if k == 27
    then 8
    else if k == 28
    then 52
    else if k == 44
    then 1
    else if k == 52
    then 1
    else if k == 65
    then 128
    else if k == 66
    then 4
    else if k == 67
    then 8
    else if k == 68
    then 100
    else if k == 72
    then 200
    else 0

abbrev pub image : ℕ → Sector
image sector k =
    if sector == 2
    then encode_dir few.dir k
    else if sector == 3
    then (if k == 0 then 1 else if k == 4 then 2 else 0)
    else program k

abbrev machine : Machine
machine = record {
  fs = record few { disk = image };
  kernel = alone;
  ports = record {
    answer = λ _ _. 0;
    reads = 0;
    written = [];
    sent_at = [];
    sector = λ _ _ _ _. 0;
    blocks = 0;
    stored = [];
  };
  tables = record { idt = λ i. setgate true 0 0 0; gdt = gdt; ts_esp0 = 0; ts_ss0 = 0 };
}

image-IsStored : IsStored image 0 700
unfolding inode_no decode_inode word_at
image-IsStored = record {
  started = λ _. omega arith;
  blocks = blocks;
  chain = λ k p. absurd (omega (arith, p));
}
  where
    blocks :
        (b : ℕ)
        → b * 512 < 700
        → (decode_inode (image ((inode_no image 0 (b / 127) + 3) % 268435456))).data_blocks
            (b % 127)
          ≢ 0
    blocks zero p = omega arith
    blocks (suc zero) p = omega arith
    blocks (suc (suc b)) p = absurd (omega (arith, p))

machine-IsProgram : IsProgram (file_of machine.fs 1)
unfolding inode_no decode_inode word_at elf_at half_at proghdr_at
machine-IsProgram = record {
  whole = omega arith;
  small = omega arith;
  magic = refl;
  headers = omega arith;
  segments = (
    (λ _. record {
      from = omega arith;
      below = omega arith;
      filled = omega arith;
      in_file = omega arith;
    }),
    tt,
  );
}

userprog_load-HasFirst_example :
    Returns
      (λ entry t. HasFirst 16 machine (file_of machine.fs 1) entry t)
      (userprog_load (16 * 2 ^ 12) 0 user_bin machine)
unfolding strncmp strncmp_from
userprog_load-HasFirst_example =
    userprog_load-HasFirst 16 user_bin 1 0 machine refl (omega arith) (omega arith) refl
      kernel-other (omega arith) first_free image-IsStored machine-IsProgram

mounted-other : (m : ℕ) → m < 1 → ¬ Named user_bin (mounted machine.fs).dir m
unfolding strncmp strncmp_from decode_dir encode_dir encode_entry word_at byte_of
mounted-other zero p e = absurd (omega (arith, e))
mounted-other (suc m) p e = absurd (omega arith)

mounted-IsProgram : IsProgram (file_of (mounted machine.fs) 1)
unfolding decode_dir encode_dir encode_entry word_at byte_of
mounted-IsProgram = machine-IsProgram

kernel_init-HasBooted_example :
    Returns
      (λ e t. HasBooted 16 alone (file_of (mounted machine.fs) 1) e t)
      (kernel_init (16 * 2 ^ 12) (λ i. i) 0 104 machine)
unfolding strncmp strncmp_from decode_dir encode_dir encode_entry word_at byte_of
kernel_init-HasBooted_example =
    kernel_init-HasBooted 16 1 0 0 104 (λ i. i) machine refl (omega arith) refl mounted-other
      (omega arith) first_free image-IsStored mounted-IsProgram
