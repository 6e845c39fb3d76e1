-- ===== src/Kernel/Frame.antt =====
-- What does not touch the processes: the semaphores, the page tables and the copies of memory.
use nju_oslab.Prelude.{
  ℕ, zero, suc, ◌+◌, ◌≡◌, refl, ◌∙◌, Option, none, some, Option, none, some, ok, Run, pure, ◌>>=◌,
  Ensures, Ensures-bind, arith,
}
use nju_oslab.Kernel.State.{Kernel, KernelM, sem_put}
use nju_oslab.Kernel.Pmap.{
  pgdir_put, pgtable_put, pcb_page_init, fill_pgtable, alloc_page, translate, move_between,
  move_byte, memcpy_virtual, pmap_init_and_copy, pmap_copy_one_page,
}

-- The PCBs, and the choice of the current one, are as they were.
pub record SameProcesses (s t : Kernel) : Type 0 where
  pub pcbs : t.user_pcbs ≡ s.user_pcbs
  pub current : t.curr_pid ≡ s.curr_pid
  pub stack : t.esp0 ≡ s.esp0
  pub directory : t.cr3 ≡ s.cr3

pub same_refl : (s : Kernel) → SameProcesses s s
same_refl s = record { pcbs = refl; current = refl; stack = refl; directory = refl }

abbrev pub Keeps : {A : Type 0} → KernelM A → Type 0
Keeps m = (s : Kernel) → Ensures (λ _ t. SameProcesses s t) (m s)

pub same_trans : {s t u : Kernel} → SameProcesses s t → SameProcesses t u → SameProcesses s u
same_trans e f = record {
  pcbs = f.pcbs ∙ e.pcbs;
  current = f.current ∙ e.current;
  stack = f.stack ∙ e.stack;
  directory = f.directory ∙ e.directory;
}

pub Keeps-bind :
    {A B : Type 0} (m : KernelM A) (k : A → KernelM B)
    → Keeps m
    → ((a : A) → Keeps (k a))
    → Keeps (m >>= k)
Keeps-bind m k p q s =
    Ensures-bind (λ _ t. SameProcesses s t) (λ _ t. SameProcesses s t) (m s) k (p s)
      (λ a t e. later e (k a t) (q a t))
  where
    later :
        {B : Type 0} {t : Kernel}
        → SameProcesses s t
        → (r : Run Kernel B) → Ensures (λ _ u. SameProcesses t u) r
        → Ensures (λ _ u. SameProcesses s u) r
    later e (ok b u) f = same_trans e f
    later e Run.panic f = tt
    later e Run.fault f = tt
    later e Run.hang f = tt

pub Keeps-pure : {A : Type 0} (a : A) → Keeps (pure a)
Keeps-pure a s = same_refl s

pub sem_put-same : (i count : ℕ) → Keeps (sem_put i count)
unfolding sem_put
sem_put-same i count s = ground arith

pgdir_put-same : (pid i e : ℕ) → Keeps (pgdir_put pid i e)
unfolding pgdir_put
pgdir_put-same pid i e s = ground arith

pgtable_put-same : (pid i e : ℕ) → Keeps (pgtable_put pid i e)
unfolding pgtable_put
pgtable_put-same pid i e s = ground arith

pcb_page_init-same : (pid : ℕ) → Keeps (pcb_page_init pid)
unfolding pcb_page_init
pcb_page_init-same pid s =
    Keeps-bind (pgdir_put pid 0 _) (λ _. pgdir_put pid _ _) (pgdir_put-same pid 0 _)
      (λ _. pgdir_put-same pid _ _) s

fill_pgtable-same : (n i pid flags : ℕ) → Keeps (fill_pgtable n i pid flags)
unfolding fill_pgtable
fill_pgtable-same zero i pid flags = Keeps-pure tt
fill_pgtable-same (suc n) i pid flags =
    Keeps-bind (pgtable_put pid i _) (λ _. fill_pgtable n (i + 1) pid flags)
      (pgtable_put-same pid i _) (λ _. fill_pgtable-same n (i + 1) pid flags)

pub pmap_copy_one_page-same : (dest src va : ℕ) → Keeps (pmap_copy_one_page dest src va)
unfolding pmap_copy_one_page pgtable_put
pmap_copy_one_page-same dest src va s = ground arith

move_between-same : (d f : Option ℕ) → Keeps (move_between d f)
unfolding move_between
move_between-same none f s = tt
move_between-same (some d) none s = tt
move_between-same (some d) (some f) s = record {
  pcbs = refl;
  current = refl;
  stack = refl;
  directory = refl;
}

module _ (tables : ℕ) where
  alloc_page-same : (va flags pid : ℕ) → Keeps (alloc_page tables va flags pid)
  unfolding alloc_page
  alloc_page-same va flags pid = Keeps-bind (pgdir_put pid _ _) _ (pgdir_put-same pid _ _) (λ _.
      Keeps-bind (fill_pgtable _ 0 pid flags) _ (fill_pgtable-same _ 0 pid flags)
        (λ _ s. same_refl s))

  move_byte-same : (dst src : ℕ) → Keeps (move_byte tables dst src)
  unfolding move_byte
  move_byte-same dst src s = move_between-same (translate tables s dst) (translate tables s src) s

  memcpy_virtual-same : (n o dst src : ℕ) → Keeps (memcpy_virtual tables n o dst src)
  unfolding memcpy_virtual
  memcpy_virtual-same zero o dst src = Keeps-pure tt
  memcpy_virtual-same (suc n) o dst src =
      Keeps-bind (move_byte tables _ _) _ (move_byte-same _ _)
        (λ _. memcpy_virtual-same n (o + 1) dst src)

  pub pmap_init_and_copy-same : (dest src : ℕ) → Keeps (pmap_init_and_copy tables dest src)
  unfolding pmap_init_and_copy
  pmap_init_and_copy-same dest src =
      Keeps-bind (pcb_page_init dest) _ (pcb_page_init-same dest) (λ _.
        Keeps-bind (alloc_page tables _ _ dest) _ (alloc_page-same _ _ dest) (λ _.
          Keeps-bind (pgdir_put src _ _) _ (pgdir_put-same src _ _) (λ _.
            Keeps-bind (memcpy_virtual tables _ 0 _ _) _ (memcpy_virtual-same _ 0 _ _)
              (λ _. pgdir_put-same src _ _))))
