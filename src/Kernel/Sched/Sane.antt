-- ===== src/Kernel/Sched/Sane.antt =====
-- At most one process runs, and it is the one that the kernel takes for the current one.
use nju_oslab.Prelude.{
  ℕ, zero, suc, ◌+◌, ◌<◌, ◌≡◌, refl, sym, false, ◌&&◌, Option, none, some, ltb, leb, lt→ltb, ◌==◌,
  ok, Run, pure, ◌>>=◌, ◌>>◌, and_then, arith, Bool-cases, inl, inr, Ensures, Ensures-bind,
}
use nju_oslab.Kernel.State.{
  Kernel, KernelM, Pcb, sleeping, is_sleeping, is_runnable, is_running, Exit, exec, back, upcb_num,
  not_waiting_sem, sem_pool_size, pcb_put, get_pid, sem_at, sem_put,
}
use nju_oslab.Kernel.Sched.{
  e_success, pcb_exec, sem_assert, sem_block, sem_wait_with, after_wait, try_process, continue_with,
  sched_round, next_round, not_running, tick_clock, sched_loop, sched_process,
}
use nju_oslab.Kernel.Frame.{SameProcesses, sem_put-same}
use nju_oslab.Kernel.Sched.Robin.{pcb_exec-ok, pcb_at-ok, turn}

-- Inside the scheduler: no process runs.
pub record IsIdle (s : Kernel) : Type 0 where
  pub pids : (i : ℕ) → i < upcb_num → (s.user_pcbs i).pid ≡ i
  pub current : s.curr_pid < upcb_num
  pub none_runs : (i : ℕ) → i < upcb_num → is_running (s.user_pcbs i).status ≡ false

-- Outside it: the current process runs, alone, on its own stack and page directory.
pub record IsSane (s : Kernel) : Type 0 where
  pub pids : (i : ℕ) → i < upcb_num → (s.user_pcbs i).pid ≡ i
  pub current : s.curr_pid < upcb_num
  pub one_runs : (i : ℕ) → i < upcb_num → is_running (s.user_pcbs i).status ≡ (i == s.curr_pid)
  pub stack : s.esp0 ≡ s.curr_pid
  pub directory : s.cr3 ≡ s.curr_pid

-- The scheduler leaves by running a process.
abbrev pub Runs : Exit → Kernel → Type 0
Runs (exec i) s = IsSane s
Runs (back v) s = ⊥

-- `sys_sem_wait` inside the scheduler comes back or leaves.
abbrev pub Waits : Exit → Kernel → Type 0
Waits (exec i) s = IsSane s
Waits (back v) s = IsIdle s

abbrev Tries : Option Exit → Kernel → Type 0
Tries none s = IsIdle s
Tries (some e) s = Runs e s

pub pcb_exec-Runs : (i : ℕ) (s : Kernel) → i < upcb_num → IsIdle s → Ensures Runs (pcb_exec i s)
pcb_exec-Runs i s lt h =
    let e : (s.user_pcbs i).pid ≡ i = h.pids i lt in
    rw (pcb_exec-ok i s lt) (record {
      pids = λ k p. ground (arith, h.pids k p, e);
      current = omega (arith, e);
      one_runs = λ k p. ground (arith, h.none_runs k p, e);
      stack = sym e;
      directory = refl;
    })

-- A change of a PCB that keeps its pid and does not let it run.
pub pcb_put-IsIdle :
    (i : ℕ) (p : Pcb) (s : Kernel)
    → p.pid ≡ i
    → is_running p.status ≡ false
    → IsIdle s
    → Ensures (λ _ t. IsIdle t) (pcb_put i p s)
unfolding pcb_put
pcb_put-IsIdle i p s e n h = elim (Bool-cases (ltb i upcb_num)) [
  | inr out ↦ rw out tt
  | inl lt ↦ rw lt (record {
    pids = λ k q. ground (arith, h.pids k q);
    current = h.current;
    none_runs = λ k q. ground (arith, h.none_runs k q);
  })
]

-- The running process gives up the processor.
pub pcb_put-stops :
    (p : Pcb) (s : Kernel)
    → p.pid ≡ s.curr_pid
    → is_running p.status ≡ false
    → IsSane s
    → Ensures (λ _ t. IsIdle t) (pcb_put s.curr_pid p s)
unfolding pcb_put
pcb_put-stops p s e n h = rw (lt→ltb s.curr_pid upcb_num h.current) (record {
  pids = λ k q. ground (arith, h.pids k q);
  current = h.current;
  none_runs = λ k q. ground (arith, h.one_runs k q);
})

IsIdle-same : {s t : Kernel} → SameProcesses s t → IsIdle s → IsIdle t
IsIdle-same {s} {t} e h = record {
  pids = λ i p. rw e.pcbs (h.pids i p);
  current = rw e.current h.current;
  none_runs = λ i p. rw e.pcbs (h.none_runs i p);
}

pub IsSane-same : {s t : Kernel} → SameProcesses s t → IsSane s → IsSane t
IsSane-same {s} {t} e h = record {
  pids = λ i p. rw e.pcbs (h.pids i p);
  current = rw e.current h.current;
  one_runs = λ i p. rw (e.pcbs, e.current) (h.one_runs i p);
  stack = rw (e.stack, e.current) h.stack;
  directory = rw (e.directory, e.current) h.directory;
}

module _ (sched : KernelM Exit) (keep : (t : Kernel) → IsIdle t → Ensures Runs (sched t)) where
  keep-Waits : (t : Kernel) → IsIdle t → Ensures Waits (sched t)
  keep-Waits t h = weaken (sched t) (keep t h)
    where
      weaken : (r : Run Kernel Exit) → Ensures Runs r → Ensures Waits r
      weaken (ok (exec i) t) g = g
      weaken (ok (back v) t) g = absurd g
      weaken Run.panic g = tt
      weaken Run.fault g = tt
      weaken Run.hang g = tt

  sem_block-Waits : (sem : ℕ) (s : Kernel) → IsIdle s → Ensures Waits (sem_block sched sem s)
  unfolding sem_block get_pid
  sem_block-Waits sem s h =
      rw (pcb_at-ok s.curr_pid s h.current)
        (elim (Bool-cases (is_sleeping (s.user_pcbs s.curr_pid).status)) [
          | inl e ↦ rw e h
          | inr e ↦ rw e (
              Ensures-bind (λ _ t. IsIdle t) Waits
                (pcb_put s.curr_pid
                  (record (s.user_pcbs s.curr_pid) { wait_sem = sem; status = sleeping }) s)
                (λ _. sched) (pcb_put-IsIdle s.curr_pid _ s (h.pids s.curr_pid h.current) refl h)
                (λ _ t g. keep-Waits t g))
        ])

  -- `sys_sem_wait` when no process runs.
  sem_wait_with-Waits :
      (sem : ℕ) (s : Kernel) → IsIdle s → Ensures Waits (sem_wait_with sched sem s)
  unfolding sem_wait_with sem_at
  sem_wait_with-Waits sem s h = elim (Bool-cases (sem_assert sem)) [
    | inr bad ↦ rw bad tt
    | inl good ↦ rw good (elim (Bool-cases (ltb sem sem_pool_size)) [
      | inr out ↦ rw out tt
      | inl lt ↦ rw lt (elim (Bool-cases (s.sem_pool sem == 0)) [
        | inl empty ↦ rw empty (sem_block-Waits sem s h)
        | inr more ↦ rw more (
            Ensures-bind (λ _ t. SameProcesses s t) Waits (sem_put sem _ s)
              (λ _. pure (back e_success)) (sem_put-same sem _ s) (λ _ t e. IsIdle-same e h))
      ])
    ])
  ]

  exec-Tries :
      (i : ℕ) (s : Kernel)
      → i < upcb_num
      → IsIdle s
      → Ensures Tries (and_then (pcb_exec i s) (λ e. pure (some e)))
  exec-Tries i s lt h =
      Ensures-bind Runs Tries (pcb_exec i s) (λ e. pure (some e)) (pcb_exec-Runs i s lt h)
        (λ e t g. g)

  after_wait-Tries :
      (i : ℕ) (lt : i < upcb_num) (r : Exit) (s : Kernel)
      → Waits r s
      → Ensures Tries (after_wait i r s)
  unfolding after_wait
  after_wait-Tries i lt (exec j) s h = h
  after_wait-Tries i lt (back v) s h = elim (Bool-cases (v == e_success)) [
    | inr e ↦ rw e h
    | inl e ↦
        rw (e, pcb_at-ok i s lt)
          (Ensures-bind (λ _ t. IsIdle t) Tries
            (pcb_put i (record (s.user_pcbs i) { wait_sem = not_waiting_sem }) s)
            (λ _. do e ← pcb_exec i; pure (some e))
            (pcb_put-IsIdle i _ s (h.pids i lt) (h.none_runs i lt) h)
            (λ _ t g. exec-Tries i t lt g))
  ]

  try_process-Tries :
      (i : ℕ) (s : Kernel) → i < upcb_num → IsIdle s → Ensures Tries (try_process sched i s)
  unfolding try_process
  try_process-Tries i s lt h =
      rw (pcb_at-ok i s lt) (elim (Bool-cases (is_runnable (s.user_pcbs i).status)) [
        | inl e ↦ rw e (exec-Tries i s lt h)
        | inr e ↦
            rw e
              (elim (Bool-cases (
                is_sleeping (s.user_pcbs i).status
                && leb (s.user_pcbs i).wakeup_time s.sys_runned_time)) [
                  | inr f ↦ rw f h
                  | inl f ↦ rw f (elim (Bool-cases ((s.user_pcbs i).wait_sem == not_waiting_sem)) [
                    | inl g ↦ rw g (exec-Tries i s lt h)
                    | inr g ↦ rw g (
                        Ensures-bind Waits Tries (sem_wait_with sched (s.user_pcbs i).wait_sem s)
                          (after_wait i) (sem_wait_with-Waits (s.user_pcbs i).wait_sem s h)
                          (after_wait-Tries i lt))
                  ])
                ])
      ])

  continue_with-Tries :
      (rest : KernelM (Option Exit))
      → ((t : Kernel) → IsIdle t → Ensures Tries (rest t))
      → (o : Option Exit) (s : Kernel) → Tries o s
      → Ensures Tries (continue_with rest o s)
  unfolding continue_with
  continue_with-Tries rest f none s h = f s h
  continue_with-Tries rest f (some e) s h = h

  sched_round-Tries :
      (original n rr : ℕ) (s : Kernel)
      → IsIdle s
      → Ensures Tries (sched_round sched original n rr s)
  unfolding sched_round
  sched_round-Tries original zero rr s h = h
  sched_round-Tries original (suc n) rr s h = elim (Bool-cases (turn original rr == original)) [
    | inl e ↦ rw e (sched_round-Tries original n (rr + 1) s h)
    | inr e ↦ rw e (
        Ensures-bind Tries Tries (try_process sched (turn original rr) s) _
          (try_process-Tries (turn original rr) s (omega arith) h)
          (continue_with-Tries (sched_round sched original n (rr + 1))
            (λ t g. sched_round-Tries original n (rr + 1) t g)))
  ]

next_round-Runs :
    (again : KernelM Exit)
    → ((t : Kernel) → IsIdle t → Ensures Runs (again t))
    → (o : Option Exit) (s : Kernel) → Tries o s
    → Ensures Runs (next_round again o s)
unfolding next_round
next_round-Runs again f none s h = f s h
next_round-Runs again f (some e) s h = h

not_running-IsIdle : (s : Kernel) (k : KernelM Exit) → IsIdle s → (not_running >> k) s ≡ k s
unfolding not_running get_pid
not_running-IsIdle s k h =
    rw (pcb_at-ok s.curr_pid s h.current, h.none_runs s.curr_pid h.current) refl

pub sched_loop-Runs :
    (fuel original : ℕ) (s : Kernel) → IsIdle s → Ensures Runs (sched_loop fuel original s)
unfolding sched_loop tick_clock
sched_loop-Runs zero original s h = tt
sched_loop-Runs (suc fuel) original s h =
    Ensures-bind Tries Runs
      (sched_round (not_running >> sched_loop fuel original) original upcb_num 0 _)
      (next_round (sched_loop fuel original))
      (sched_round-Tries (not_running >> sched_loop fuel original)
        (λ t g.
          rw (not_running-IsIdle t (sched_loop fuel original) g)
            (sched_loop-Runs fuel original t g))
        original upcb_num 0 _
        (IsIdle-same (record { pcbs = refl; current = refl; stack = refl; directory = refl }) h))
      (next_round-Runs (sched_loop fuel original) (λ t g. sched_loop-Runs fuel original t g))

-- From a kernel in which no process runs, each PCB has its own number and the current process
-- is one of the 64: whenever `sched_process` leaves, for whatever fuel, it leaves by running
-- one process, which is then the current one and the only one that runs, on its own kernel
-- stack and page directory.
pub sched_process-Runs : (fuel : ℕ) (s : Kernel) → IsIdle s → Ensures Runs (sched_process fuel s)
unfolding sched_process get_pid
sched_process-Runs fuel s h =
    rw (not_running-IsIdle s (sched_loop fuel s.curr_pid) h) (sched_loop-Runs fuel s.curr_pid s h)
