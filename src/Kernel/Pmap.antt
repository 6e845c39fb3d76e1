-- ===== src/Kernel/Pmap.antt =====
-- kernel/pmap.c and inc/pmap.h: the page tables of the processes.
pub mod Maps
pub mod Copy
pub mod Forked
pub mod Shared
use nju_oslab.Prelude.{
  ℕ, zero, suc, ◌+◌, ◌-◌, ◌*◌, ◌/◌, ◌%◌, ◌^◌, ◌<◌, bit_or, bit_and, Bool, true, false, Option, none,
  some, ltb, ◌==◌, if◌then◌else◌, ok, fault, M, pure, get, put, in_range, my_assert, ◌>>=◌, ◌>>◌,
  update,
}
use nju_oslab.Mmu.{
  kernbase, nptentries, pgsize, ptsize, pdx, ptx, pgoff, pte_addr, pte_p, pte_w, pte_u,
}
use nju_oslab.Kernel.State.{Kernel, KernelM, upcb_num}

abbrev pub max_mem : ℕ
max_mem = 0x800_0000

abbrev pub kern_mem : ℕ
kern_mem = 0x100_0000

-- The number of user page tables, 28.
abbrev pub user_dir_num : ℕ
user_dir_num = (max_mem - kern_mem) / 2 ^ 22

abbrev pub new_addr : ℕ
new_addr = 0x1000_0000

abbrev pub user_start : ℕ
user_start = 0x800_0000

-- The entry at `i` of the directory of `pid`, and of its page table.
unfoldable pub pgdir_put : ℕ → ℕ → ℕ → KernelM (Unit {0})
pgdir_put pid i e = do
  in_range (ltb pid upcb_num)
  s ← get
  put (record s { user_pgdir = update s.user_pgdir pid (update (s.user_pgdir pid) i e) })

unfoldable pub pgtable_put : ℕ → ℕ → ℕ → KernelM (Unit {0})
pgtable_put pid i e = do
  in_range (ltb pid user_dir_num)
  s ← get
  put (record s { user_pgtable = update s.user_pgtable pid (update (s.user_pgtable pid) i e) })

unfoldable pub pcb_page_init : ℕ → KernelM (Unit {0})
pcb_page_init pid = do
  s ← get
  pgdir_put pid 0 (s.entry_pgdir 0)
  pgdir_put pid (kernbase / 2 ^ 22) (s.entry_pgdir (kernbase / 2 ^ 22))

-- The frame that the page i of the process `pid` gets.
unfoldable pub frame_entry : ℕ → ℕ → ℕ → ℕ
frame_entry pid i flags = bit_or (bit_or (kern_mem + pid * 2 ^ 22) (i * 2 ^ 12)) flags

-- `for (int i = 0; i < NPTENTRIES; ++i)`, with the rounds left.
unfoldable pub fill_pgtable : ℕ → ℕ → ℕ → ℕ → KernelM (Unit {0})
fill_pgtable zero i pid flags = pure tt
fill_pgtable (suc n) i pid flags = do
  pgtable_put pid i (frame_entry pid i flags)
  fill_pgtable n (i + 1) pid flags

-- A byte moved from one physical address to another, where there are both.
unfoldable pub move_between : Option ℕ → Option ℕ → KernelM (Unit {0})
move_between none f s = fault
move_between (some d) none s = fault
move_between (some d) (some f) s = ok tt (record s { ram = update s.ram d (s.ram f) })

-- `tables` is the physical address of `user_pgtable`, which the linker chooses.
module _ (tables : ℕ) where
  -- `(uintptr_t) &user_pgtable[pid] - KERNBASE`
  abbrev pub table_address : ℕ → ℕ
  table_address pid = tables + pid * pgsize

  unfoldable pub alloc_page : ℕ → ℕ → ℕ → KernelM ℕ
  alloc_page va flags pid = do
    pgdir_put pid (pdx va) (bit_or (table_address pid) flags)
    fill_pgtable nptentries 0 pid flags
    pure (kern_mem + pid * 2 ^ 22)

  -- What the processor does with an address: the entry of the loaded directory, then that of the
  -- page table it leads to. Only the user's page tables are walked.
  unfoldable pub translate : Kernel → ℕ → Option ℕ
  translate s va =
      let pde = s.user_pgdir s.cr3 (pdx va) in
      let row = (pte_addr pde - tables) / pgsize in
      let pte = s.user_pgtable row (ptx va) in
      if pde % 2 == 0 then none else if pte % 2 == 0 then none else some (pte_addr pte + pgoff va)

  -- A byte moved from one virtual address to another.
  unfoldable pub move_byte : ℕ → ℕ → KernelM (Unit {0})
  move_byte dst src s = move_between (translate s dst) (translate s src) s

  -- `memcpy`, with the bytes left and the offset.
  unfoldable pub memcpy_virtual : ℕ → ℕ → ℕ → ℕ → KernelM (Unit {0})
  memcpy_virtual zero o dst src = pure tt
  memcpy_virtual (suc n) o dst src = do
    move_byte (dst + o) (src + o)
    memcpy_virtual n (o + 1) dst src

  unfoldable pub pmap_init_and_copy : ℕ → ℕ → KernelM (Unit {0})
  pmap_init_and_copy dest_pid src_pid = do
    pcb_page_init dest_pid
    let flags = bit_or (bit_or pte_p pte_w) pte_u
    _ ← alloc_page user_start flags dest_pid
    pgdir_put src_pid (pdx new_addr) (bit_or (table_address dest_pid) flags)
    memcpy_virtual ptsize 0 new_addr user_start
    pgdir_put src_pid (pdx new_addr) 0

unfoldable pub pmap_copy_one_page : ℕ → ℕ → ℕ → KernelM (Unit {0})
pmap_copy_one_page dest_pid src_pid va = do
  my_assert (va % pgsize == 0)
  in_range (ltb src_pid user_dir_num)
  s ← get
  pgtable_put dest_pid (ptx va) (s.user_pgtable src_pid (ptx va))
