-- ===== src/Kernel/Syscall/Sane.antt =====
-- Every system call keeps the kernel sane.
use nju_oslab.Prelude.{
  ℕ, zero, suc, ◌+◌, ◌≡◌, ◌≢◌, refl, Bool, true, false, ◌&&◌, Option, none, some, Bool-cases,
  Option-cases, inl, inr, ◌==◌, ltb, ok, Run, pure, my_assert, ◌>>=◌, ◌>>◌, Ensures, Ensures-bind,
  arith, add32,
}
use nju_oslab.Kernel.State.{
  Kernel, KernelM, Pcb, Trapframe, PushRegs, Exit, back, exec, is_running, is_sleeping, upcb_num,
  sem_pool_size, sem_put, sem_at, pcb_put, get_pid,
}
use nju_oslab.Kernel.Frame.{
  SameProcesses, same_refl, Keeps, Keeps-bind, Keeps-pure, sem_put-same, pmap_init_and_copy-same,
  pmap_copy_one_page-same,
}
use nju_oslab.Kernel.Pmap.{translate, pmap_init_and_copy, pmap_copy_one_page}
use nju_oslab.Kernel.Sched.{
  e_success, sem_assert, positive_int, sys_sem_open, sys_sem_destroy, sys_sem_post, sys_sem_wait,
  sem_wait_with, sem_block, sched_process,
}
use nju_oslab.Kernel.Sched.Robin.{pcb_at-ok}
use nju_oslab.Kernel.Sched.Sane.{
  IsSane, IsIdle, Runs, IsSane-same, pcb_put-stops, sched_process-Runs,
}
use nju_oslab.Kernel.Syscall
use nju_oslab.Kernel.Syscall.{
  Env, Sysno, sysno, scr_size, show_byte, display_from, sys_timer, sys_keyboard, sys_display,
  sys_sleep, sys_exit, sys_wait_intr, after_hlt, free_pcb, child_of, fork_into, fork_to, sys_fork,
  sys_mem_share, dispatch, cli, syscall_handler,
}

abbrev pub Sane : {A : Type 0} → A → Kernel → Type 0
Sane _ s = IsSane s

-- What is asked of the code outside the kernel: printing leaves the processes alone, and an interrupt
-- taken during a `hlt` ends in a sane kernel, whether it comes back or leaves for a process.
pub record IsTame (env : Env) : Type 0 where
  pub print : (ctl arg : ℕ) (s : Kernel) → SameProcesses s (env.print ctl arg s)
  pub interrupt : (s : Kernel) → IsSane s → Ensures Sane (env.interrupt s)

-- A step that leaves the processes alone.
pub Keeps-Sane :
    {A : Type 0} (m : KernelM A) → Keeps m → (s : Kernel) → IsSane s → Ensures Sane (m s)
Keeps-Sane m k s h = lift (m s) (k s)
  where
    lift : {A : Type 0} (r : Run Kernel A) → Ensures (λ _ t. SameProcesses s t) r → Ensures Sane r
    lift (ok a t) e = IsSane-same e h
    lift Run.panic e = tt
    lift Run.fault e = tt
    lift Run.hang e = tt

Runs-Sane : (r : Run Kernel Exit) → Ensures Runs r → Ensures Sane r
Runs-Sane (ok (exec i) t) g = g
Runs-Sane (ok (back v) t) g = absurd g
Runs-Sane Run.panic g = tt
Runs-Sane Run.fault g = tt
Runs-Sane Run.hang g = tt

-- The running process stops and the scheduler takes over.
stop-Sane :
    (fuel : ℕ) (p : Pcb) (s : Kernel)
    → p.pid ≡ s.curr_pid
    → is_running p.status ≡ false
    → IsSane s
    → Ensures Sane ((pcb_put s.curr_pid p >> sched_process fuel) s)
stop-Sane fuel p s e n h =
    Ensures-bind (λ _ t. IsIdle t) Sane (pcb_put s.curr_pid p s) (λ _. sched_process fuel)
      (pcb_put-stops p s e n h)
      (λ _ t g. Runs-Sane (sched_process fuel t) (sched_process-Runs fuel t g))

pub sys_sleep-Sane : (fuel time : ℕ) (s : Kernel) → IsSane s → Ensures Sane (sys_sleep fuel time s)
unfolding sys_sleep get_pid
sys_sleep-Sane fuel time s h =
    rw (pcb_at-ok s.curr_pid s h.current) (stop-Sane fuel _ s (h.pids s.curr_pid h.current) refl h)

sys_exit-Sane : (fuel : ℕ) (s : Kernel) → IsSane s → Ensures Sane (sys_exit fuel s)
unfolding sys_exit get_pid
sys_exit-Sane fuel s h =
    rw (pcb_at-ok s.curr_pid s h.current) (stop-Sane fuel _ s (h.pids s.curr_pid h.current) refl h)

sys_sem_wait-Sane : (fuel sem : ℕ) (s : Kernel) → IsSane s → Ensures Sane (sys_sem_wait fuel sem s)
unfolding sys_sem_wait sem_wait_with sem_block sem_at get_pid
sys_sem_wait-Sane fuel sem s h = elim (Bool-cases (sem_assert sem)) [
  | inr bad ↦ rw bad tt
  | inl good ↦ rw good (elim (Bool-cases (ltb sem sem_pool_size)) [
    | inr out ↦ rw out tt
    | inl lt ↦ rw lt (elim (Bool-cases (s.sem_pool sem == 0)) [
      | inr more ↦ rw more (
          Keeps-Sane (do sem_put sem _; pure (back e_success))
            (Keeps-bind (sem_put sem _) _ (sem_put-same sem _) (λ _. Keeps-pure (back e_success))) s
            h)
      | inl empty ↦
          rw (empty, pcb_at-ok s.curr_pid s h.current)
            (elim (Bool-cases (is_sleeping (s.user_pcbs s.curr_pid).status)) [
              | inl e ↦ rw e h
              | inr e ↦ rw e (stop-Sane fuel _ s (h.pids s.curr_pid h.current) refl h)
            ])
    ])
  ])
]

-- A change of the PCB i that keeps its pid and whether it runs.
pub pcb_put-Sane :
    (i : ℕ) (p : Pcb) (s : Kernel)
    → p.pid ≡ i
    → is_running p.status ≡ (i == s.curr_pid)
    → IsSane s
    → Ensures Sane (pcb_put i p s)
unfolding pcb_put
pcb_put-Sane i p s e n h = elim (Bool-cases (ltb i upcb_num)) [
  | inr out ↦ rw out tt
  | inl lt ↦ rw lt (record {
    pids = λ k q. ground (arith, h.pids k q);
    current = h.current;
    one_runs = λ k q. ground (arith, h.one_runs k q);
    stack = h.stack;
    directory = h.directory;
  })
]

-- The search for a free PCB does not find the parent.
free_pcb-other : (pcbs : ℕ → Pcb) (old n i k : ℕ) → free_pcb pcbs old n i ≡ some k → k ≢ old
unfolding free_pcb
free_pcb-other pcbs old zero i k e = cc
free_pcb-other pcbs old (suc n) i k e = ground (arith, free_pcb-other pcbs old n (i + 1) k)

sys_fork-Sane : (tables : ℕ) (s : Kernel) → IsSane s → Ensures Sane (sys_fork tables s)
unfolding sys_fork fork_to fork_into get_pid child_of
sys_fork-Sane tables s h = elim (Option-cases (free_pcb s.user_pcbs s.curr_pid upcb_num 0)) [
  | inl e ↦ rw e tt
  | inr (k, e) ↦
      rw (e, pcb_at-ok s.curr_pid s h.current)
        (Ensures-bind Sane Sane (pcb_put k (child_of (s.user_pcbs s.curr_pid) k) s) _
          (pcb_put-Sane k _ s refl
            (ground (arith, free_pcb-other s.user_pcbs s.curr_pid upcb_num 0 k e)) h)
          (λ _ t g.
            Keeps-Sane (do pmap_init_and_copy tables k s.curr_pid; pure k)
              (Keeps-bind (pmap_init_and_copy tables k s.curr_pid) _
                (pmap_init_and_copy-same tables k s.curr_pid) (λ _. Keeps-pure k))
              t g))
]

show_byte-same : (o : ℕ) (f : Option ℕ) → Keeps (show_byte o f)
unfolding show_byte
show_byte-same o none s = tt
show_byte-same o (some f) s = record { pcbs = refl; current = refl; stack = refl; directory = refl }

display_from-same : (tables n o buffer : ℕ) → Keeps (display_from tables n o buffer)
unfolding display_from
display_from-same tables zero o buffer = Keeps-pure tt
display_from-same tables (suc n) o buffer = λ s.
    Keeps-bind (show_byte o (translate tables s (buffer + o))) _ (show_byte-same o _)
      (λ _. display_from-same tables n (o + 1) buffer) s

cli-Sane :
    (k : KernelM Exit) (s : Kernel)
    → ((t : Kernel) → IsSane t → Ensures Sane (k t))
    → IsSane s
    → Ensures Sane ((cli >> k) s)
unfolding cli
cli-Sane k s f h =
    f _ (IsSane-same (record { pcbs = refl; current = refl; stack = refl; directory = refl }) h)

assert-Keeps : {A : Type 0} (b : Bool) (k : KernelM A) → Keeps k → Keeps (my_assert b >> k)
assert-Keeps b k p s = elim (Bool-cases b) [ inl e ↦ rw e (p s) | inr e ↦ rw e tt ]

sem_at-same : (sem : ℕ) → Keeps (sem_at sem)
unfolding sem_at
sem_at-same sem s = elim (Bool-cases (ltb sem sem_pool_size)) [
  | inl e ↦ rw e (same_refl s)
  | inr e ↦ rw e tt
]

sys_sem_open-same : (sem value : ℕ) → Keeps (sys_sem_open sem value)
unfolding sys_sem_open
sys_sem_open-same sem value =
    assert-Keeps (sem_assert sem && positive_int value) (do sem_put sem value; pure sem)
      (Keeps-bind (sem_put sem value) (λ _. pure sem) (sem_put-same sem value)
        (λ _. Keeps-pure sem))

sys_sem_destroy-same : (sem : ℕ) → Keeps (sys_sem_destroy sem)
unfolding sys_sem_destroy
sys_sem_destroy-same sem =
    assert-Keeps (sem_assert sem) (do sem_put sem 0; pure e_success)
      (Keeps-bind (sem_put sem 0) (λ _. pure e_success) (sem_put-same sem 0)
        (λ _. Keeps-pure e_success))

sys_sem_post-same : (sem : ℕ) → Keeps (sys_sem_post sem)
unfolding sys_sem_post
sys_sem_post-same sem =
    assert-Keeps (sem_assert sem) (do c ← sem_at sem; sem_put sem (add32 c 1); pure e_success)
      (Keeps-bind (sem_at sem) (λ c. do sem_put sem (add32 c 1); pure e_success) (sem_at-same sem)
        (λ c.
          Keeps-bind (sem_put sem (add32 c 1)) (λ _. pure e_success) (sem_put-same sem _)
            (λ _. Keeps-pure e_success)))

sys_mem_share-same : (dest src va : ℕ) → Keeps (sys_mem_share dest src va)
unfolding sys_mem_share
sys_mem_share-same dest src va =
    Keeps-bind (pmap_copy_one_page dest src va) (λ _. pure e_success)
      (pmap_copy_one_page-same dest src va) (λ _. Keeps-pure e_success)

kept-Sane : (m : KernelM ℕ) (s : Kernel) → Keeps m → IsSane s → Ensures Sane (Syscall.value m s)
kept-Sane m s k h =
    Ensures-bind Sane Sane (m s) (λ v. pure (back v)) (Keeps-Sane m k s h) (λ v t g. g)

value-Sane : (m : KernelM ℕ) (s : Kernel) → Ensures Sane (m s) → Ensures Sane (Syscall.value m s)
value-Sane m s f = Ensures-bind Sane Sane (m s) (λ v. pure (back v)) f (λ v t g. g)

no_value-Sane :
    (m : KernelM (Unit {0})) (s : Kernel) → Ensures Sane (m s) → Ensures Sane (Syscall.no_value m s)
no_value-Sane m s f = Ensures-bind Sane Sane (m s) (λ v. pure (back 0)) f (λ v t g. g)

pub same-rest :
    (s : Kernel) {t : Kernel}
    → t.user_pcbs ≡ s.user_pcbs
    → t.curr_pid ≡ s.curr_pid
    → t.esp0 ≡ s.esp0
    → t.cr3 ≡ s.cr3
    → IsSane s
    → IsSane t
same-rest s a b c d h = IsSane-same (record { pcbs = a; current = b; stack = c; directory = d }) h

after_hlt-Sane : (e : Exit) (s : Kernel) → IsSane s → Ensures Sane (after_hlt e s)
unfolding after_hlt
after_hlt-Sane (exec i) s h = h
after_hlt-Sane (back v) s h = same-rest s refl refl refl refl h

module _ (env : Env) (tame : IsTame env) where
  pub dispatch-Sane :
      (no : Sysno) (r : PushRegs) (s : Kernel) → IsSane s → Ensures Sane (dispatch env no r s)
  unfolding dispatch sys_timer sys_keyboard sys_display sys_wait_intr get_pid
  dispatch-Sane Sysno.vprintk r s h = IsSane-same (tame.print r.reg_edx r.reg_ecx s) h
  dispatch-Sane Sysno.exit r s h = sys_exit-Sane env.fuel s h
  dispatch-Sane Sysno.fork r s h = value-Sane (sys_fork env.tables) s (sys_fork-Sane env.tables s h)
  dispatch-Sane Sysno.timer r s h = same-rest s refl refl refl refl h
  dispatch-Sane Sysno.keyboard r s h = same-rest s refl refl refl refl h
  dispatch-Sane Sysno.display r s h = no_value-Sane (sys_display env.tables r.reg_edx) s (
      Keeps-Sane (display_from env.tables scr_size 0 r.reg_edx)
        (display_from-same env.tables scr_size 0 r.reg_edx) s h)
  dispatch-Sane Sysno.sleep r s h = sys_sleep-Sane env.fuel r.reg_edx s h
  dispatch-Sane Sysno.wait_intr r s h =
      Ensures-bind Sane Sane (env.interrupt (record s { interrupts = true })) after_hlt
        (tame.interrupt _ (same-rest s refl refl refl refl h)) after_hlt-Sane
  dispatch-Sane Sysno.crash r s h = tt
  dispatch-Sane Sysno.getpid r s h = h
  dispatch-Sane Sysno.sem_open r s h =
      kept-Sane (sys_sem_open r.reg_edx r.reg_ecx) s (sys_sem_open-same r.reg_edx r.reg_ecx) h
  dispatch-Sane Sysno.sem_destroy r s h =
      kept-Sane (sys_sem_destroy r.reg_edx) s (sys_sem_destroy-same r.reg_edx) h
  dispatch-Sane Sysno.sem_wait r s h = sys_sem_wait-Sane env.fuel r.reg_edx s h
  dispatch-Sane Sysno.sem_post r s h =
      kept-Sane (sys_sem_post r.reg_edx) s (sys_sem_post-same r.reg_edx) h
  dispatch-Sane Sysno.mem_share r s h =
      kept-Sane (sys_mem_share r.reg_edx r.reg_ecx r.reg_ebx) s
        (sys_mem_share-same r.reg_edx r.reg_ecx r.reg_ebx) h
  dispatch-Sane Sysno.unknown r s h = h

  pub syscall_handler-Sane :
      (tf : Trapframe) (s : Kernel) → IsSane s → Ensures Sane (syscall_handler env tf s)
  unfolding syscall_handler
  syscall_handler-Sane tf s h =
      cli-Sane (dispatch env (sysno tf.tf_regs.reg_eax) tf.tf_regs) s
        (λ t g. dispatch-Sane _ tf.tf_regs t g) h
