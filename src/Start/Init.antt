-- ===== src/Start/Init.antt =====
-- `kernel_init` as a whole.
use nju_oslab.Prelude.{
  ℕ, ◌*◌, ◌^◌, ◌<◌, ◌≡◌, ◌≢◌, refl, ap, ◌∙◌, sym, true, Option, ok, panic, fault, hang, ◌>>◌, Run,
  and_then, arith, Returns, returns, Returns-bind, bit_or,
}
use nju_oslab.Fs.State.{Fs, useful}
use nju_oslab.Fs.Layout.{entry_count, fsoffset_dir, fsoffset_bitmap, decode_dir, decode_bitmap}
use nju_oslab.Fs.Open.Laws.{Named, IsFirstClosed}
use nju_oslab.Fs.Transfer.{fs_init}
use nju_oslab.Fs.Files.{OpenFile, IsStored}
use nju_oslab.Fs.Files.Opened.{file_of}
use nju_oslab.Device.Ports.{Ports, PortsM, outb, init_serial, init_timer, cmd_byte, pic_init}
use nju_oslab.Kernel.State.{Kernel, KernelM, Exit, exec, free, upcb_num}
use nju_oslab.Kernel.Pmap.{kern_mem, translate}
use nju_oslab.Kernel.Sched.{first_frame, pcb_init_p0, pcb_exec}
use nju_oslab.Kernel.Sched.Sane.{IsSane}
use nju_oslab.Kernel.Trap.{trap_init}
use nju_oslab.Start.{
  Machine, in_ports, in_kernel, on_ports, on_kernel, elf_at, program_start, fl_if, user_bin,
  kernel_init,
}
use nju_oslab.Start.Segment.{IsUser, IsMapped}
use nju_oslab.Start.Program.{memory, loaded}
use nju_oslab.Start.Load.{header_of, IsProgram}
use nju_oslab.Start.First.{HasFirst, userprog_load-HasFirst}
use nju_oslab.Start.Boot.{IsBooted, left, start_p0-left, left-IsBooted}

init_serial-Returns : (p : Ports) → Returns (λ _ _. Unit {0}) (init_serial p)
unfolding init_serial outb
init_serial-Returns p = returns tt

init_timer-Returns : (p : Ports) → Returns (λ _ _. Unit {0}) (init_timer p)
unfolding init_timer outb cmd_byte
init_timer-Returns p = returns tt

pic_init-Returns : (p : Ports) → Returns (λ _ _. Unit {0}) (pic_init p)
unfolding pic_init outb
pic_init-Returns p = returns tt

on_ports-Returns :
    {B : Type 0} {Q : B → Machine → Type 0} (m : PortsM (Unit {0})) (s : Machine)
    (k : Machine → Run Machine B)
    → Returns (λ _ _. Unit {0}) (m s.ports)
    → ((t : Ports) → Returns Q (k (record s { ports = t })))
    → Returns Q (and_then (on_ports m s) (λ _ t. k t))
on_ports-Returns {B} {Q} m s k r next = go (m s.ports) r
  where
    go :
        (x : Run Ports (Unit {0}))
        → Returns (λ _ _. Unit {0}) x
        → Returns Q (and_then (in_ports s x) (λ _ t. k t))
    go x (returns p) = next _

-- The file system as `fs_init` reads it.
abbrev pub mounted : Fs → Fs
mounted s = record s {
  state_bitmap = useful;
  state_dir = useful;
  dir = decode_dir (s.disk fsoffset_dir);
  bitmap = decode_bitmap (s.disk fsoffset_bitmap);
}

-- The machine when the kernel is left for the first program.
pub record HasBooted (frames : ℕ) (k : Kernel) (f : OpenFile) (e : Exit) (t : Machine)
    : Type 0 where
  pub leaves : e ≡ exec 0
  pub sane : IsSane t.kernel
  pub frame :
      (t.kernel.user_pcbs 0).tf
      ≡ first_frame program_start (elf_at (header_of f)).e_entry (bit_or 2 fl_if)
  pub others_free : (i : ℕ) → 0 < i → i < upcb_num → (t.kernel.user_pcbs i).status ≡ free
  pub interruptible : t.kernel.interrupts ≡ true
  pub mapped : IsMapped (frames * 2 ^ 12) kern_mem t.kernel
  pub there :
      (w : ℕ)
      → IsUser w
      → memory (frames * 2 ^ 12) kern_mem t.kernel w
        ≡ loaded
            (header_of f)
            f
            (elf_at (header_of f)).e_phnum
            (elf_at (header_of f)).e_phoff
            w
            (memory (frames * 2 ^ 12) kern_mem k w)

-- Two runs of the kernel, one after the other.
in_kernel-again :
    {A : Type 0} (t : Machine) (k : Kernel) (x : Run Kernel A)
    → in_kernel (record t { kernel = k }) x ≡ in_kernel t x
in_kernel-again t k (ok a u) = refl
in_kernel-again t k panic = refl
in_kernel-again t k fault = refl
in_kernel-again t k hang = refl

on_kernel-bind :
    {A : Type 0} (t : Machine) (x : Run Kernel (Unit {0})) (n : KernelM A)
    → and_then (in_kernel t x) (λ _. on_kernel n) ≡ in_kernel t (and_then x (λ _. n))
on_kernel-bind t (ok a k) n = in_kernel-again t k (n k)
on_kernel-bind t panic n = refl
on_kernel-bind t fault n = refl
on_kernel-bind t hang n = refl

-- The walk of the tables from the directory of d.
abbrev translate_in : ℕ → Kernel → ℕ → ℕ → Option ℕ
translate_in tables k d w = translate tables (record k { cr3 = d }) w

start_p0-HasBooted :
    (frames entry : ℕ) (s t : Machine) (f : OpenFile)
    → HasFirst frames s f entry t
    → Returns
        (λ e u. HasBooted frames s.kernel f e u)
        ((do on_kernel (pcb_init_p0 0 program_start entry (bit_or 2 fl_if)); on_kernel (pcb_exec 0))
          t)
unfolding translate
start_p0-HasBooted frames entry s t f h =
    let b : IsBooted t.kernel entry (left entry t.kernel) = left-IsBooted entry t.kernel in
    let maps : IsMapped (frames * 2 ^ 12) kern_mem (left entry t.kernel) = λ w u.
      ap (λ d. translate_in (frames * 2 ^ 12) t.kernel d w) (sym h.directory) ∙ h.mapped w u in
    rw
      (
        on_kernel-bind t (pcb_init_p0 0 program_start entry (bit_or 2 fl_if) t.kernel) (pcb_exec 0),
        start_p0-left entry t.kernel,
      )
      (returns record {
        leaves = refl;
        sane = b.sane;
        frame = b.frame ∙ ap (λ v. first_frame program_start v (bit_or 2 fl_if)) h.starts;
        others_free = b.others_free;
        interruptible = refl;
        mapped = maps;
        there = h.there;
      })

-- From a machine whose current process is 0, where a descriptor of the file system is closed (j
-- is the first), and whose disk has in its directory the file "user.bin" (at the first entry of
-- that name, which is not the entry 0), below 2 ^ 31 bytes, with all its blocks and inodes,
-- where this file is a program (a whole sector with the magic number, the program headers in
-- it, and each segment that is to be loaded within the 4 MB of the process, with no more bytes
-- in the file than in the memory and than the file has): `kernel_init` leaves for the process
-- 0. The kernel is then sane: the process 0 runs, alone, on its own stack and directory, all
-- others are free, and interrupts are on. Its frame has the entry of the file, and its memory
-- is mapped and has every segment that is to be loaded, later ones over earlier ones: the bytes
-- of the file from the start on, whatever the segment's offset, and zeroes behind them; every
-- other byte is what it was.
pub kernel_init-HasBooted :
    (frames n j pts pts_size : ℕ) (trap_handlers : ℕ → ℕ) (s : Machine)
    → s.kernel.curr_pid ≡ 0
    → n < entry_count
    → Named user_bin (mounted s.fs).dir n
    → ((m : ℕ) → m < n → ¬ Named user_bin (mounted s.fs).dir m)
    → n ≢ 0
    → IsFirstClosed s.fs.fd_pool j
    → IsStored s.fs.disk ((mounted s.fs).dir n).inode_offset ((mounted s.fs).dir n).file_size
    → IsProgram (file_of (mounted s.fs) n)
    → Returns
        (λ e t. HasBooted frames s.kernel (file_of (mounted s.fs) n) e t)
        (kernel_init (frames * 2 ^ 12) trap_handlers pts pts_size s)
unfolding kernel_init fs_init
kernel_init-HasBooted frames n j pts pts_size trap_handlers s current lt named first nz closed st
      prog =
    on_ports-Returns init_serial s _ (init_serial-Returns s.ports) (λ a.
      on_ports-Returns init_timer (record s { ports = a }) _ (init_timer-Returns a)
        (λ b.
          on_ports-Returns pic_init (record s { ports = b }) _ (pic_init-Returns b)
            (λ c.
              let s' : Machine = record s {
                ports = c;
                tables = trap_init trap_handlers pts pts_size s.tables;
                fs = mounted s.fs;
              } in
              Returns-bind
                (userprog_load-HasFirst frames user_bin n j s' current (omega arith) lt named first
                  nz closed st prog)
                (λ entry t h. start_p0-HasBooted frames entry s' t (file_of (mounted s.fs) n) h))))
