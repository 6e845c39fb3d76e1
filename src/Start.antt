-- ===== src/Start.antt =====
-- kernel/init.c and inc/elf.h: the start of the kernel and the loading of a program.
pub mod Segment
pub mod Parts
pub mod Program
pub mod Load
pub mod First
pub mod Boot
pub mod Init
pub mod Tests
use nju_oslab.Prelude.{
  ℕ, zero, suc, ◌+◌, ◌*◌, ◌%◌, ◌^◌, Bool, not, ◌&&◌, Option, none, some, ltb, leb, ◌==◌,
  if◌then◌else◌, ok, panic, fault, hang, M, Run, pure, get, put, my_assert, in_range, ◌>>=◌, ◌>>◌,
  update, ℤ, pos, negsuc, signed32, add32, sub32, bit_or, List, [], ◌∷◌, get_or,
}
use nju_oslab.Fs.Layout.{Sector, sectsize, word_at}
use nju_oslab.Fs.State.{Fs, FsM}
use nju_oslab.Fs.Open.{fs_open}
use nju_oslab.Fs.Transfer.{fs_init, fs_read, fs_lseek, fs_close, seek_set}
use nju_oslab.Mmu.{pdx, pte_p, pte_w, pte_u}
use nju_oslab.Device.Ports.{Ports, PortsM, init_serial, init_timer, pic_init}
use nju_oslab.Kernel.State.{Kernel, KernelM, Exit, get_pid}
use nju_oslab.Kernel.Pmap.{user_start, pcb_page_init, alloc_page, translate}
use nju_oslab.Kernel.Sched.{pcb_init_p0, pcb_exec}
use nju_oslab.Kernel.Trap.{Tables, trap_init}

-- The whole machine: each part has its own state.
pub record Machine : Type 0 where
  pub fs : Fs
  pub kernel : Kernel
  pub ports : Ports
  pub tables : Tables

-- A run of one part is a run of the machine.
abbrev pub in_fs : {A : Type 0} → Machine → Run Fs A → Run Machine A
in_fs s (ok a t) = ok a (record s { fs = t })
in_fs s panic = panic
in_fs s fault = fault
in_fs s hang = hang

abbrev pub in_kernel : {A : Type 0} → Machine → Run Kernel A → Run Machine A
in_kernel s (ok a t) = ok a (record s { kernel = t })
in_kernel s panic = panic
in_kernel s fault = fault
in_kernel s hang = hang

abbrev pub in_ports : {A : Type 0} → Machine → Run Ports A → Run Machine A
in_ports s (ok a t) = ok a (record s { ports = t })
in_ports s panic = panic
in_ports s fault = fault
in_ports s hang = hang

abbrev pub on_fs : {A : Type 0} → FsM A → M Machine A
on_fs m s = in_fs s (m s.fs)

abbrev pub on_kernel : {A : Type 0} → KernelM A → M Machine A
on_kernel m s = in_kernel s (m s.kernel)

abbrev pub on_ports : {A : Type 0} → PortsM A → M Machine A
on_ports m s = in_ports s (m s.ports)

pub record Elf : Type 0 where
  pub e_magic : ℕ
  pub e_elf : ℕ → ℕ
  pub e_type : ℕ
  pub e_machine : ℕ
  pub e_version : ℕ
  pub e_entry : ℕ
  pub e_phoff : ℕ
  pub e_shoff : ℕ
  pub e_flags : ℕ
  pub e_ehsize : ℕ
  pub e_phentsize : ℕ
  pub e_phnum : ℕ
  pub e_shentsize : ℕ
  pub e_shnum : ℕ
  pub e_shstrndx : ℕ

pub record Proghdr : Type 0 where
  pub p_type : ℕ
  pub p_offset : ℕ
  pub p_va : ℕ
  pub p_pa : ℕ
  pub p_filesz : ℕ
  pub p_memsz : ℕ
  pub p_flags : ℕ
  pub p_align : ℕ

-- A little-endian word of 16 bits.
unfoldable pub half_at : Sector → ℕ → ℕ
half_at b i = b i + b (i + 1) * 256

-- The structures at the bytes, as the compiler lays them out.
unfoldable pub elf_at : Sector → Elf
elf_at b = record {
  e_magic = word_at b 0;
  e_elf = λ i. b (4 + i);
  e_type = half_at b 16;
  e_machine = half_at b 18;
  e_version = word_at b 20;
  e_entry = word_at b 24;
  e_phoff = word_at b 28;
  e_shoff = word_at b 32;
  e_flags = word_at b 36;
  e_ehsize = half_at b 40;
  e_phentsize = half_at b 42;
  e_phnum = half_at b 44;
  e_shentsize = half_at b 46;
  e_shnum = half_at b 48;
  e_shstrndx = half_at b 50;
}

abbrev pub sizeof_proghdr : ℕ
sizeof_proghdr = 32

unfoldable pub proghdr_at : Sector → ℕ → Proghdr
proghdr_at b o = record {
  p_type = word_at b o;
  p_offset = word_at b (o + 4);
  p_va = word_at b (o + 8);
  p_pa = word_at b (o + 12);
  p_filesz = word_at b (o + 16);
  p_memsz = word_at b (o + 20);
  p_flags = word_at b (o + 24);
  p_align = word_at b (o + 28);
}

abbrev pub elf_magic : ℕ
elf_magic = 0x464C_457F

-- USER_START of kernel/init.c
abbrev pub program_start : ℕ
program_start = 0x804_8000

abbrev pub fl_if : ℕ
fl_if = 0x200

-- `ph->p_type == 1 && ph->p_memsz`
abbrev pub wanted : Proghdr → Bool
wanted ph = ph.p_type == 1 && not (ph.p_memsz == 0)

-- "user.bin"
abbrev pub user_bin : ℕ → ℕ
user_bin i = get_or (b'u' ∷ b's' ∷ b'e' ∷ b'r' ∷ b'.' ∷ b'b' ∷ b'i' ∷ b'n' ∷ []) i 0

-- `tables` is where the linker put the page tables.
module _ (tables : ℕ) where
  -- A byte at a virtual address of the loaded directory. An address out of the 4 MB that
  -- `alloc_page` maps is outside the model: the run fails.
  unfoldable pub store_at : Option ℕ → ℕ → KernelM (Unit {0})
  store_at none b s = fault
  store_at (some f) b s = ok tt (record s { ram = update s.ram f b })

  unfoldable pub store_byte : ℕ → ℕ → KernelM (Unit {0})
  store_byte va b = do
    in_range (pdx va == pdx user_start)
    s ← get
    store_at (translate tables s va) b

  -- The bytes of a buffer, in turn, with the bytes left and the offset.
  unfoldable pub store_bytes : ℕ → ℕ → ℕ → (ℕ → ℕ) → KernelM (Unit {0})
  store_bytes zero o va bytes = pure tt
  store_bytes (suc n) o va bytes = do
    store_byte (add32 va o) (bytes o)
    store_bytes n (o + 1) va bytes

  -- The body of the loop: the segment's bytes, and zeroes behind them.
  unfoldable pub load_segment : ℕ → Proghdr → M Machine (Unit {0})
  load_segment fd ph = do
    on_fs (fs_lseek fd (signed32 ph.p_offset) seek_set)
    r ← on_fs (fs_read fd (λ _. 0) (signed32 ph.p_filesz))
    on_kernel (store_bytes r.0 0 ph.p_pa r.1)
    my_assert (r.0 == ph.p_filesz)
    on_kernel (store_bytes (sub32 ph.p_memsz ph.p_filesz) 0 (add32 ph.p_pa ph.p_filesz) (λ _. 0))

  -- `for (; ph < eph; ++ph)`, with the headers left and the offset of the next.
  unfoldable pub load_segments : ℕ → ℕ → Sector → ℕ → M Machine (Unit {0})
  load_segments zero o header fd = pure tt
  load_segments (suc n) o header fd = do
    if wanted (proghdr_at header o) then load_segment fd (proghdr_at header o) else pure tt
    load_segments n (o + sizeof_proghdr) header fd

  -- From the open file on. The headers lie in the buffer: the code's own test wraps at 2 ^ 32, and
  -- where only that one holds the headers would be read from outside.
  unfoldable pub load_from : ℕ → ℕ → M Machine ℕ
  load_from pid fd = do
    r ← on_fs (fs_read fd (λ _. 0) (pos sectsize))
    my_assert (r.0 == sectsize)
    let e = elf_at r.1
    my_assert (e.e_magic == elf_magic)
    my_assert (leb (add32 e.e_phoff (e.e_phnum * sizeof_proghdr)) sectsize)
    in_range (leb (e.e_phoff + e.e_phnum * sizeof_proghdr) sectsize)
    on_kernel (λ k. ok tt (record k { cr3 = pid }))
    load_segments e.e_phnum e.e_phoff r.1 fd
    on_fs (fs_close fd)
    pure e.e_entry

  unfoldable pub load_opened : ℕ → ℤ → M Machine ℕ
  load_opened pid (pos fd) = load_from pid fd
  load_opened pid (negsuc e) = λ _. panic

  unfoldable pub userprog_load : ℕ → (ℕ → ℕ) → M Machine ℕ
  userprog_load pid filename = do
    p ← on_kernel get_pid
    my_assert (p == pid)
    on_kernel (pcb_page_init pid)
    _ ← on_kernel (alloc_page tables program_start (bit_or (bit_or pte_p pte_w) pte_u) 0)
    fd ← on_fs (fs_open (some filename) 0)
    load_opened pid fd

  -- `trap_handlers`, and the address and size of the task state, come from the linker.
  unfoldable pub kernel_init : (ℕ → ℕ) → (pts pts_size : ℕ) → M Machine Exit
  kernel_init trap_handlers pts pts_size = do
    on_ports init_serial
    on_ports init_timer
    on_ports pic_init
    (λ s. ok tt (record s { tables = trap_init trap_handlers pts pts_size s.tables }))
    on_fs fs_init
    entry ← userprog_load 0 user_bin
    on_kernel (pcb_init_p0 0 program_start entry (bit_or 2 fl_if))
    on_kernel (pcb_exec 0)
