-- ===== src/Kernel/Sched/Robin.antt =====
-- The scheduler takes the next ready process after the current one.
use nju_oslab.Prelude.{
  ℕ, zero, suc, ◌+◌, ◌/◌, ◌%◌, ◌≤◌, ◌<◌, ◌≡◌, ◌≢◌, refl, ◌∙◌, Bool, true, false, not, ◌&&◌, Option,
  none, some, leb, lt→ltb, ◌==◌, ne→==, if◌then◌else◌, ok, Run, pure, ◌>>=◌, ◌>>◌, and_then, update,
  add32, arith, Bool-cases, inl, inr, ==→eq, ==→ne,
}
use nju_oslab.Kernel.State.{
  Kernel, KernelM, Pcb, running, is_sleeping, is_runnable, is_running, Exit, exec, upcb_num,
  not_waiting_sem, pcb_at, pcb_put, get_pid,
}
use nju_oslab.Kernel.Sched.{
  pcb_exec, try_process, continue_with, sched_round, next_round, not_running, tick_clock,
  sched_loop, sched_process,
}

-- Ready at the time `now`: runnable, or asleep with its time come and waiting for no semaphore.
abbrev pub is_ready : ℕ → Pcb → Bool
is_ready now p =
    if is_runnable p.status
    then true
    else is_sleeping p.status && leb p.wakeup_time now && (p.wait_sem == not_waiting_sem)

-- Passed over at the time `now`: neither runnable, nor asleep with its time come.
abbrev pub is_skipped : ℕ → Pcb → Bool
is_skipped now p = not (is_runnable p.status) && not (is_sleeping p.status && leb p.wakeup_time now)

pub pcb_at-ok : (i : ℕ) (s : Kernel) → i < upcb_num → pcb_at i s ≡ ok (s.user_pcbs i) s
unfolding pcb_at
pcb_at-ok i s h = rw (lt→ltb i upcb_num h) refl

module _ (sched : KernelM Exit) (i : ℕ) (s : Kernel) (lt : i < upcb_num) where
  try_process-skip :
      is_skipped s.sys_runned_time (s.user_pcbs i) ≡ true → try_process sched i s ≡ ok none s
  unfolding try_process
  try_process-skip h = rw (pcb_at-ok i s lt) (ground arith)

  pub try_process-ready :
      is_ready s.sys_runned_time (s.user_pcbs i) ≡ true
      → try_process sched i s ≡ (do e ← pcb_exec i; pure (some e)) s
  unfolding try_process
  try_process-ready h = rw (pcb_at-ok i s lt) (ground arith)

-- The process that the round looks at in its turn rr.
abbrev pub turn : ℕ → ℕ → ℕ
turn original rr = (rr + original + 1) % upcb_num

-- The turn d is the first of a ready process: those before it are passed over.
pub record IsNext (now original d : ℕ) (pcbs : ℕ → Pcb) : Type 0 where
  pub in_round : d < upcb_num
  pub other : turn original d ≢ original
  pub ready : is_ready now (pcbs (turn original d)) ≡ true
  pub skipped : (m : ℕ) → m < d → is_skipped now (pcbs (turn original m)) ≡ true

pub sched_round-pass :
    (sched : KernelM Exit) (original n rr : ℕ) (s : Kernel)
    → is_skipped s.sys_runned_time (s.user_pcbs (turn original rr)) ≡ true
    → sched_round sched original (suc n) rr s ≡ sched_round sched original n (rr + 1) s
unfolding sched_round continue_with
sched_round-pass sched original n rr s h = elim (Bool-cases (turn original rr == original)) [
  | inl e ↦ rw e refl
  | inr e ↦ rw (e, try_process-skip sched (turn original rr) s (omega arith) h) refl
]

sched_round-stop :
    (r : Run Kernel Exit) (rest : KernelM (Option Exit))
    → and_then (and_then r (λ e. pure (some e))) (continue_with rest)
      ≡ and_then r (λ e. pure (some e))
unfolding continue_with
sched_round-stop (ok e t) rest = refl
sched_round-stop Run.panic rest = refl
sched_round-stop Run.fault rest = refl
sched_round-stop Run.hang rest = refl

pub sched_round-take :
    (sched : KernelM Exit) (original n rr : ℕ) (s : Kernel)
    → turn original rr ≢ original
    → is_ready s.sys_runned_time (s.user_pcbs (turn original rr)) ≡ true
    → sched_round sched original (suc n) rr s
      ≡ (do e ← pcb_exec (turn original rr); pure (some e)) s
unfolding sched_round
sched_round-take sched original n rr s ne h =
    rw
      (
        ne→== (turn original rr) original ne,
        try_process-ready sched (turn original rr) s (omega arith) h,
      )
      (sched_round-stop (pcb_exec (turn original rr) s) (sched_round sched original n (rr + 1)))

pub sched_round-IsNext :
    (sched : KernelM Exit) (original n rr d : ℕ) (s : Kernel)
    → rr ≤ d
    → d < rr + n
    → IsNext s.sys_runned_time original d s.user_pcbs
    → sched_round sched original n rr s ≡ (do e ← pcb_exec (turn original d); pure (some e)) s
sched_round-IsNext sched original zero rr d s a b h = absurd (omega arith)
sched_round-IsNext sched original (suc n) rr d s a b h = elim (Bool-cases (rr == d)) [
  | inr e ↦
      sched_round-pass sched original n rr s (h.skipped rr (omega (arith, ==→ne rr d e)))
      ∙ sched_round-IsNext sched original n (rr + 1) d s (omega (arith, ==→ne rr d e)) (omega arith)
          h
  | inl e ↦
      let e' : rr ≡ d = ==→eq rr d e in
      rw e' (sched_round-take sched original n d s h.other h.ready)
]

-- What `pcb_exec` does to the state: the process i runs.
abbrev pub running_now : Kernel → ℕ → Kernel
running_now s i =
    let p = s.user_pcbs i in
    record s {
      user_pcbs = update s.user_pcbs i (record p { status = running });
      curr_pid = p.pid;
      cr3 = p.pid;
      esp0 = i;
      interrupts = not (p.tf.tf_eflags / 512 % 2 == 0);
    }

pub pcb_exec-ok : (i : ℕ) (s : Kernel) → i < upcb_num → pcb_exec i s ≡ ok (exec i) (running_now s i)
unfolding pcb_exec pcb_at pcb_put
pcb_exec-ok i s h = rw (lt→ltb i upcb_num h) refl

abbrev pub ticked : Kernel → Kernel
ticked s = record s { sys_runned_time = add32 s.sys_runned_time 1 }

-- Round robin: when the current process is one of the 64 and does not run, and in the order
-- from it on the process of turn d is the first that is ready at the next tick (runnable, or
-- asleep with its time come and waiting for no semaphore) while those before it are passed
-- over, then one round of fuel is enough: `sched_process` runs that process, with the clock one
-- tick further and nothing else changed.
pub sched_process-IsNext :
    (fuel d : ℕ) (s : Kernel)
    → s.curr_pid < upcb_num
    → is_running (s.user_pcbs s.curr_pid).status ≡ false
    → IsNext (add32 s.sys_runned_time 1) s.curr_pid d s.user_pcbs
    → sched_process (suc fuel) s
      ≡ ok (exec (turn s.curr_pid d)) (running_now (ticked s) (turn s.curr_pid d))
unfolding sched_process sched_loop tick_clock not_running get_pid next_round
sched_process-IsNext fuel d s lt stopped h =
    rw
      (
        pcb_at-ok s.curr_pid s lt,
        stopped,
        sched_round-IsNext (not_running >> sched_loop fuel s.curr_pid) s.curr_pid upcb_num 0 d
            (ticked s) (omega arith) h.in_round h,
        pcb_exec-ok (turn s.curr_pid d) (ticked s) (omega arith),
      )
      refl
