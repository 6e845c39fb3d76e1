-- ===== src/Kernel/Syscall/Fork.antt =====
-- What `sys_fork` makes of a free process.
use nju_oslab.Prelude.{
  ℕ, zero, suc, ◌+◌, ◌*◌, ◌^◌, ◌≤◌, ◌<◌, ◌≡◌, ◌≢◌, refl, ap, ◌∙◌, sym, subst, true, false,
  Bool-cases, inl, inr, lt→ltb, ge→ltb, ◌==◌, ==→eq, ==→ne, eq→==, ne→==, some, update, fault, pure,
  Returns, returns, Returns-bind, ◌>>◌, arith,
}
use nju_oslab.Mmu.{ptsize, pdx}
use nju_oslab.Kernel.State.{Kernel, Pcb, runnable, is_free, upcb_num, pcb_put, get_pid}
use nju_oslab.Kernel.Pmap.{
  user_dir_num, user_start, fill_pgtable, pgtable_put, alloc_page, pmap_init_and_copy,
}
use nju_oslab.Kernel.Pmap.Forked.{
  memory_of, LeadsTo, HasTable, pmap_init_and_copy-HasCopy, pgdir_put-ok, pcb_page_init-ok,
  with_kernel,
}
use nju_oslab.Kernel.Sched.Robin.{pcb_at-ok}
use nju_oslab.Kernel.Syscall.{free_pcb, child_of, fork_into, fork_to, sys_fork}

-- d is the first free process that is not the current one.
pub record IsFirstFree (pcbs : ℕ → Pcb) (p d : ℕ) : Type 0 where
  pub in_range : d < upcb_num
  pub other : d ≢ p
  pub unused : is_free (pcbs d).status ≡ true
  pub first : (i : ℕ) → i < d → i ≢ p → is_free (pcbs i).status ≡ false

-- The process q is the child d of the process p: its number, its status and its eax are its own, and
-- with those of the parent put back it is the parent.
pub record IsChild (p : Pcb) (d : ℕ) (q : Pcb) : Type 0 where
  pub number : q.pid ≡ d
  pub ready : q.status ≡ runnable
  pub answer : q.tf.tf_regs.reg_eax ≡ 0
  pub rest :
      record q {
        pid = p.pid;
        status = p.status;
        tf = record q.tf { tf_regs = record q.tf.tf_regs { reg_eax = p.tf.tf_regs.reg_eax } };
      }
      ≡ p

IsChild-child_of : (p : Pcb) (d : ℕ) → IsChild p d (child_of p d)
unfolding child_of
IsChild-child_of p d = record { number = refl; ready = refl; answer = refl; rest = refl }

free_pcb-IsFirstFree :
    (pcbs : ℕ → Pcb) (p d n i : ℕ)
    → i ≤ d
    → d < i + n
    → IsFirstFree pcbs p d
    → free_pcb pcbs p n i ≡ some d
unfolding free_pcb
free_pcb-IsFirstFree pcbs p d zero i a b h = absurd (omega arith)
free_pcb-IsFirstFree pcbs p d (suc n) i a b h = elim (Bool-cases (i == d)) [
  | inl e ↦ let f : i ≡ d = ==→eq i d e in rw (f, ne→== d p h.other, h.unused) refl
  | inr e ↦
      let next : free_pcb pcbs p n (i + 1) ≡ some d =
        free_pcb-IsFirstFree pcbs p d n (i + 1) (omega (arith, ==→ne i d e)) (omega arith) h in
      elim (Bool-cases (i == p)) [
        | inl f ↦ rw f next
        | inr f ↦ rw (f, h.first i (omega (arith, ==→ne i d e)) (==→ne i p f)) next
      ]
]

-- The state after the child's PCB was written.
abbrev adopted : Kernel → ℕ → Kernel
adopted s d = record s { user_pcbs = update s.user_pcbs d (child_of (s.user_pcbs s.curr_pid) d) }

sys_fork-adopted :
    (tables d : ℕ) (s : Kernel)
    → s.curr_pid < upcb_num
    → IsFirstFree s.user_pcbs s.curr_pid d
    → sys_fork tables s ≡ (do pmap_init_and_copy tables d s.curr_pid; pure d) (adopted s d)
unfolding sys_fork get_pid fork_to fork_into pcb_put
sys_fork-adopted tables d s lt h =
    rw
      (
        free_pcb-IsFirstFree s.user_pcbs s.curr_pid d upcb_num 0 (omega arith) h.in_range h,
        pcb_at-ok s.curr_pid s lt,
        lt→ltb d upcb_num h.in_range,
      )
      refl

-- With the user page tables on a page boundary, the current process p among the first 28, its
-- directory loaded and mapping its own 4 MB, and d, among the first 28 too, the first free
-- process: `sys_fork` returns d. The child d has its own number, is runnable and will see 0 in
-- eax, and is for the rest the parent; the parent's PCB is what it was; and the byte o of the
-- child's 4 MB is that of the parent's.
pub sys_fork-HasCopy :
    (frames d o : ℕ) (s : Kernel)
    → s.curr_pid < user_dir_num
    → d < user_dir_num
    → s.cr3 ≡ s.curr_pid
    → LeadsTo frames s s.curr_pid 32 s.curr_pid
    → HasTable s s.curr_pid
    → IsFirstFree s.user_pcbs s.curr_pid d
    → o < ptsize
    → Returns
        (λ r t.
          (r ≡ d)
          × IsChild (s.user_pcbs s.curr_pid) d (t.user_pcbs d)
          × (t.user_pcbs s.curr_pid ≡ s.user_pcbs s.curr_pid)
          × (t.ram (memory_of d + o) ≡ s.ram (memory_of s.curr_pid + o)))
        (sys_fork (frames * 2 ^ 12) s)
sys_fork-HasCopy frames d o s lp ld loaded leads table h lt =
    rw (sys_fork-adopted (frames * 2 ^ 12) d s (omega (arith, lp)) h) (
      Returns-bind
        (pmap_init_and_copy-HasCopy frames s.curr_pid d (adopted s d) lp ld (λ e. h.other (sym e))
          loaded leads table)
        (λ _ t c. returns (
          refl,
          subst (IsChild (s.user_pcbs s.curr_pid) d)
              (sym (ap (λ f. f d) c.processes ∙ rw (eq→== d d refl) refl))
              (IsChild-child_of (s.user_pcbs s.curr_pid) d),
          ap (λ f. f s.curr_pid) c.processes ∙ rw (ne→== d s.curr_pid h.other) refl,
          c.bytes o lt,
        )))

fill_pgtable-fault :
    (n i pid flags : ℕ) (s : Kernel)
    → user_dir_num ≤ pid
    → fill_pgtable (suc n) i pid flags s ≡ fault
unfolding fill_pgtable pgtable_put
fill_pgtable-fault n i pid flags s h = rw (ge→ltb pid user_dir_num h) refl

-- There are 64 processes and 28 user page tables. When the first free process is none of the
-- first 28, `sys_fork` writes past the page tables.
pub sys_fork-fault :
    (tables d : ℕ) (s : Kernel)
    → s.curr_pid < upcb_num
    → IsFirstFree s.user_pcbs s.curr_pid d
    → user_dir_num ≤ d
    → sys_fork tables s ≡ fault
unfolding pmap_init_and_copy alloc_page
sys_fork-fault tables d s lt h far =
    sys_fork-adopted tables d s lt h
    ∙ rw
        (
          pcb_page_init-ok d (adopted s d) h.in_range,
          pgdir_put-ok d (pdx user_start) _ (with_kernel (adopted s d) d) h.in_range,
          fill_pgtable-fault 1023 0 d _ _ far,
        )
        refl
