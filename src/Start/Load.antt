-- ===== src/Start/Load.antt =====
-- A program from its open file to the memory of a process.
use nju_oslab.Prelude.{
  ℕ, ◌+◌, ◌*◌, ◌^◌, ◌≤◌, ◌<◌, ◌≡◌, refl, ap, ◌∙◌, true, ◌⊎◌, ltb, leb, eq→==, if◌then◌else◌, pos,
  arith, add32, Returns, returns, Returns-bind, fun_ext,
}
use native.Mathlib.Nat.{zero-add}
use nju_oslab.Fs.Layout.{Sector, sectsize}
use nju_oslab.Fs.Transfer.{fs_read, fs_close}
use nju_oslab.Fs.Files.{OpenFile, amount, Views}
use nju_oslab.Fs.Files.Session.{HasReceived, fs_read-HasReceived, fs_close-Returns}
use nju_oslab.Kernel.State.{Kernel}
use nju_oslab.Start.{Machine, elf_at, elf_magic, sizeof_proghdr, load_from}
use nju_oslab.Start.Segment.{IsUser, IsMapped}
use nju_oslab.Start.Program.{memory, loaded, AllFit, load_segments-HasLoaded}
use nju_oslab.Start.Parts.{on_fs-Returns}

-- The first sector of a file, as the buffer has it.
abbrev pub header_of : OpenFile → Sector
header_of f j = if ltb j sectsize then f.byte j else 0

-- A file that is a program: a whole sector with a magic number, the headers in it, and segments that
-- fit the memory of the process.
pub record IsProgram (f : OpenFile) : Type 0 where
  pub whole : sectsize ≤ f.size
  pub small : f.size < 2 ^ 31
  pub magic : (elf_at (header_of f)).e_magic ≡ elf_magic
  pub headers :
      (elf_at (header_of f)).e_phoff + (elf_at (header_of f)).e_phnum * sizeof_proghdr ≤ sectsize
  pub segments :
      AllFit (header_of f) f (elf_at (header_of f)).e_phnum (elf_at (header_of f)).e_phoff

abbrev pub at_start : OpenFile → OpenFile
at_start f = record f { position = 0 }

no_wrap :
    (f : OpenFile)
    → IsProgram f
    → leb
        ((elf_at (header_of f)).e_phoff + (elf_at (header_of f)).e_phnum * sizeof_proghdr)
        sectsize
      ≡ true
no_wrap f p = ground (arith, p.headers)

-- The test of the code, which wraps.
in_sector :
    (f : OpenFile)
    → IsProgram f
    → leb
        (add32 (elf_at (header_of f)).e_phoff ((elf_at (header_of f)).e_phnum * sizeof_proghdr))
        sectsize
      ≡ true
in_sector f p =
    let small : add32 (elf_at (header_of f)).e_phoff
          ((elf_at (header_of f)).e_phnum * sizeof_proghdr)
        ≡ (elf_at (header_of f)).e_phoff + (elf_at (header_of f)).e_phnum * sizeof_proghdr =
      omega (arith, p.headers) in
    rw small (no_wrap f p)

module _ (tables base : ℕ) where
  -- The program f is in the memory, and the directory of `pid` is loaded.
  pub record HasProgram (k : Kernel) (pid : ℕ) (f : OpenFile) (entry : ℕ) (t : Kernel)
      : Type 0 where
    pub starts : entry ≡ (elf_at (header_of f)).e_entry
    pub same : t ≡ record k { cr3 = pid; ram = t.ram }
    pub there :
        (w : ℕ)
        → IsUser w
        → memory tables base t w
          ≡ loaded
              (header_of f)
              f
              (elf_at (header_of f)).e_phnum
              (elf_at (header_of f)).e_phoff
              w
              (memory tables base k w)
    pub others : (a : ℕ) → (a < base) ⊎ (base + 2 ^ 22 ≤ a) → t.ram a ≡ k.ram a

  pub load_from-HasProgram :
      (s : Machine) (pid fd : ℕ) (f : OpenFile)
      → IsProgram f
      → Views s.fs fd (at_start f)
      → IsMapped tables base (record s.kernel { cr3 = pid })
      → Returns (λ entry t. HasProgram s.kernel pid f entry t.kernel) (load_from tables pid fd s)
  unfolding load_from
  load_from-HasProgram s pid fd f prog v mapped =
      on_fs-Returns (fs_read fd (λ _. 0) (pos sectsize)) s
        (HasReceived s.fs fd (at_start f) v.0 v.1 (λ _. 0) sectsize) _
        (fs_read-HasReceived s.fs fd (at_start f) v.0 v.1 (λ _. 0) sectsize)
        (λ r t got.
          let count : r.0 ≡ sectsize = got.0 ∙ omega (arith, prog.whole) in
          let all : amount (at_start f) sectsize ≡ sectsize = omega (arith, prog.whole) in
          let bytes : r.1 ≡ header_of f =
            fun_ext (λ j. got.1 j ∙ rw (all, ap f.byte (zero-add j)) refl) in
          rw
            (
              count,
              bytes,
              eq→== (elf_at (header_of f)).e_magic elf_magic prog.magic,
              in_sector f prog,
              no_wrap f prog,
            )
            (Returns-bind
              (load_segments-HasLoaded tables base (elf_at (header_of f)).e_phnum
                (elf_at (header_of f)).e_phoff (header_of f)
                (record s { fs = t; kernel = record s.kernel { cr3 = pid } }) fd
                (0 + amount (at_start f) sectsize) f prog.small got.2.here mapped prog.segments)
              (λ _ u b.
                on_fs-Returns (fs_close fd) u (λ _ _. Unit {0}) _
                  (fs_close-Returns u.fs fd (record f { position = b.views.0 }) b.views.1.0
                    b.views.1.1)
                  (λ _ _ _.
                    returns record {
                      starts = refl;
                      same = b.same;
                      there = b.there;
                      others = b.others;
                    }))))
