-- ===== src/Kernel/Syscall/Stuck.antt =====
-- Two ways in which giving up the processor goes wrong.
use nju_oslab.Prelude.{
  ℕ, suc, ◌+◌, ◌<◌, ◌≡◌, ◌≢◌, refl, ◌∙◌, true, false, ne→==, lt→ltb, leb, update, ok, hang,
  and_then, ◌^◌, ◌>>◌, add32, arith, none, some,
}
use nju_oslab.Kernel.State.{
  Kernel, KernelM, free, sleeping, is_sleeping, is_runnable, is_running, is_free, Exit, exec,
  upcb_num, sem_pool_size, not_waiting_sem, get_pid, pcb_put, sem_at,
}
use nju_oslab.Kernel.Sched.{
  sem_assert, sem_block, sem_wait_with, after_wait, try_process, continue_with, sched_round,
  next_round, not_running, tick_clock, sched_loop, sched_process,
}
use nju_oslab.Kernel.Sched.Robin.{
  turn, is_ready, running_now, pcb_exec-ok, sched_round-take, pcb_at-ok, running_now, ticked,
}
use nju_oslab.Kernel.Sched.Lone.{sched_process-hang}
use nju_oslab.Kernel.Syscall.{sys_sleep, sys_exit}

-- A process that sleeps while every other one is free never wakes: `sys_sleep` hangs, whatever
-- the fuel and the time asked for.
pub sys_sleep-hang :
    (fuel time : ℕ) (s : Kernel)
    → s.curr_pid < upcb_num
    → ((i : ℕ) → i < upcb_num → i ≢ s.curr_pid → is_free (s.user_pcbs i).status ≡ true)
    → sys_sleep fuel time s ≡ hang
unfolding sys_sleep get_pid pcb_put
sys_sleep-hang fuel time s lt h =
    rw (pcb_at-ok s.curr_pid s lt, lt→ltb s.curr_pid upcb_num lt)
      (sched_process-hang fuel _ lt (ground arith) (λ i p ne. ground (arith, h i p ne)))

-- Asleep on the semaphore k, which is empty; it never called `sys_sleep`.
pub record IsBlocked (s : Kernel) (k i : ℕ) : Type 0 where
  pub in_pool : k < sem_pool_size
  pub empty : s.sem_pool k ≡ 0
  pub asleep : is_sleeping (s.user_pcbs i).status ≡ true
  pub due : (s.user_pcbs i).wakeup_time ≡ 0
  pub waits : (s.user_pcbs i).wait_sem ≡ k

-- The state in which `sys_sem_wait` leaves the current process when it goes to sleep.
abbrev pub asleep_on : Kernel → ℕ → Kernel
asleep_on s k = record s {
  user_pcbs =
      update s.user_pcbs s.curr_pid
        (record (s.user_pcbs s.curr_pid) { wait_sem = k; status = sleeping });
}

-- `sys_sem_wait` on an empty semaphore of the pool.
sem_wait_with-blocked :
    (sched : KernelM Exit) (k : ℕ) (s : Kernel)
    → k < sem_pool_size
    → s.sem_pool k ≡ 0
    → sem_wait_with sched k s ≡ sem_block sched k s
unfolding sem_wait_with sem_assert sem_at
sem_wait_with-blocked sched k s lt e =
    rw (lt→ltb k (2 ^ 31) (omega arith), lt→ltb k sem_pool_size lt, e) refl

module _ (sched : KernelM Exit) (k i : ℕ) (s : Kernel) (lt : i < upcb_num) (b : IsBlocked s k i)
    (cur : s.curr_pid < upcb_num) where
  try_process-blocked : try_process sched i s ≡ and_then (sem_block sched k s) (after_wait i)
  unfolding try_process
  try_process-blocked =
      let awake : is_runnable (s.user_pcbs i).status ≡ false = ground (arith, b.asleep) in
      let past : leb 0 s.sys_runned_time ≡ true = ground arith in
      rw
        (
          pcb_at-ok i s lt,
          awake,
          b.asleep,
          b.due,
          past,
          b.waits,
          ne→== k not_waiting_sem (omega (arith, b.in_pool)),
          sem_wait_with-blocked sched k s b.in_pool b.empty,
        )
        refl

  -- With the current process awake, that is what the scheduler's call of `sys_sem_wait` for the
  -- process i puts to sleep.
  try_process-asleep :
      is_sleeping (s.user_pcbs s.curr_pid).status ≡ false
      → try_process sched i s ≡ and_then (sched (asleep_on s k)) (after_wait i)
  unfolding sem_block get_pid pcb_put
  try_process-asleep e =
      try_process-blocked ∙ rw (pcb_at-ok s.curr_pid s cur, e, lt→ltb s.curr_pid upcb_num cur) refl

  try_process-refused :
      is_sleeping (s.user_pcbs s.curr_pid).status ≡ true → try_process sched i s ≡ ok none s
  unfolding sem_block after_wait get_pid
  try_process-refused e = try_process-blocked ∙ rw (pcb_at-ok s.curr_pid s cur, e) refl

asleep_on-IsBlocked :
    (s : Kernel) (k i : ℕ)
    → i ≢ s.curr_pid
    → IsBlocked s k i
    → IsBlocked (ticked (asleep_on s k)) k i
asleep_on-IsBlocked s k i ne b = record {
  in_pool = b.in_pool;
  empty = b.empty;
  asleep = ground (arith, b.asleep);
  due = ground (arith, b.due);
  waits = ground (arith, b.waits);
}

sched_round-refused :
    (sched : KernelM Exit) (original n rr : ℕ) (s : Kernel)
    → turn original rr ≢ original
    → try_process sched (turn original rr) s ≡ ok none s
    → sched_round sched original (suc n) rr s ≡ sched_round sched original n (rr + 1) s
unfolding sched_round continue_with
sched_round-refused sched original n rr s ne e = rw (ne→== (turn original rr) original ne, e) refl

sched_round-exec :
    (sched : KernelM Exit) (original n rr j : ℕ) (s t : Kernel)
    → turn original rr ≢ original
    → try_process sched (turn original rr) s ≡ ok (some (exec j)) t
    → sched_round sched original (suc n) rr s ≡ ok (some (exec j)) t
unfolding sched_round continue_with
sched_round-exec sched original n rr j s t ne e = rw (ne→== (turn original rr) original ne, e) refl

sched_loop-exec :
    (fuel original j : ℕ) (s t : Kernel)
    → sched_round (not_running >> sched_loop fuel original) original upcb_num 0 (ticked s)
      ≡ ok (some (exec j)) t
    → sched_loop (suc fuel) original s ≡ ok (exec j) t
unfolding sched_loop tick_clock next_round
sched_loop-exec fuel original j s t e = rw e refl

-- The second round, from the process that has gone to sleep: the blocked one is passed over and
-- the ready one after it runs.
sched_loop-second :
    (fuel k : ℕ) (s : Kernel)
    → s.curr_pid < upcb_num
    → is_sleeping (s.user_pcbs s.curr_pid).status ≡ true
    → IsBlocked (ticked s) k (turn s.curr_pid 0)
    → is_ready (add32 s.sys_runned_time 1) (s.user_pcbs (turn s.curr_pid 1)) ≡ true
    → sched_loop (suc fuel) s.curr_pid s
      ≡ ok (exec (turn s.curr_pid 1)) (running_now (ticked s) (turn s.curr_pid 1))
sched_loop-second fuel k s lt e b ready =
    let sched : KernelM Exit = not_running >> sched_loop fuel s.curr_pid in
    let p = s.curr_pid in
    sched_loop-exec fuel p (turn p 1) s _ (
      sched_round-refused sched p 63 0 (ticked s) (omega arith)
        (try_process-refused sched k (turn p 0) (ticked s) (omega arith) b lt e)
      ∙ sched_round-take sched p 62 1 (ticked s) (omega arith) ready
      ∙ rw (pcb_exec-ok (turn p 1) (ticked s) (omega arith)) refl)

-- The state in which `sys_exit` leaves the current process.
abbrev pub exited : Kernel → Kernel
exited s = record s {
  user_pcbs = update s.user_pcbs s.curr_pid (record (s.user_pcbs s.curr_pid) { status = free });
}

not_running-ok :
    (s : Kernel)
    → s.curr_pid < upcb_num
    → is_running (s.user_pcbs s.curr_pid).status ≡ false
    → not_running s ≡ ok tt s
unfolding not_running get_pid
not_running-ok s lt e = rw (pcb_at-ok s.curr_pid s lt, e) refl

again-exec :
    (fuel k i : ℕ) (s : Kernel)
    → s.curr_pid < upcb_num
    → is_sleeping (s.user_pcbs s.curr_pid).status ≡ true
    → is_running (s.user_pcbs s.curr_pid).status ≡ false
    → IsBlocked (ticked s) k (turn s.curr_pid 0)
    → is_ready (add32 s.sys_runned_time 1) (s.user_pcbs (turn s.curr_pid 1)) ≡ true
    → and_then ((not_running >> sched_loop (suc fuel) s.curr_pid) s) (after_wait i)
      ≡ ok (some (exec (turn s.curr_pid 1))) (running_now (ticked s) (turn s.curr_pid 1))
unfolding after_wait
again-exec fuel k i s lt e f b ready =
    rw (not_running-ok s lt f, sched_loop-second fuel k s lt e b ready) refl

sched_process-blocked :
    (fuel k : ℕ) (s : Kernel)
    → s.curr_pid < upcb_num
    → is_sleeping (s.user_pcbs s.curr_pid).status ≡ false
    → is_running (s.user_pcbs s.curr_pid).status ≡ false
    → IsBlocked s k (turn s.curr_pid 0)
    → is_runnable (s.user_pcbs (turn s.curr_pid 1)).status ≡ true
    → sched_loop (suc (suc fuel)) s.curr_pid s
      ≡ ok
          (exec (turn s.curr_pid 1))
          (running_now (ticked (asleep_on (ticked s) k)) (turn s.curr_pid 1))
sched_process-blocked fuel k s lt e f b ready =
    let p = s.curr_pid in
    let again : KernelM Exit = not_running >> sched_loop (suc fuel) p in
    sched_loop-exec (suc fuel) p (turn p 1) s _ (
      sched_round-exec again p 63 0 (turn p 1) (ticked s) _ (omega arith) (
        try_process-asleep again k (turn p 0) (ticked s) (omega arith)
          record {
            in_pool = b.in_pool;
            empty = b.empty;
            asleep = b.asleep;
            due = b.due;
            waits = b.waits;
          }
          lt e
        ∙ again-exec fuel k (turn p 0) (asleep_on (ticked s) k) lt (ground arith) (ground arith)
            (asleep_on-IsBlocked (ticked s) k (turn p 0) (omega arith) record {
              in_pool = b.in_pool;
              empty = b.empty;
              asleep = b.asleep;
              due = b.due;
              waits = b.waits;
            })
            (ground (arith, ready))))

sched_process-awake :
    (fuel : ℕ) (s : Kernel)
    → s.curr_pid < upcb_num
    → is_running (s.user_pcbs s.curr_pid).status ≡ false
    → sched_process fuel s ≡ sched_loop fuel s.curr_pid s
unfolding sched_process get_pid
sched_process-awake fuel s lt f = rw (not_running-ok s lt f) refl

sys_exit-exited :
    (fuel : ℕ) (s : Kernel)
    → s.curr_pid < upcb_num
    → sys_exit fuel s ≡ sched_process fuel (exited s)
unfolding sys_exit get_pid pcb_put
sys_exit-exited fuel s lt = rw (pcb_at-ok s.curr_pid s lt, lt→ltb s.curr_pid upcb_num lt) refl

-- The exit that does not end: the current process p exits while p + 1 sleeps on an empty
-- semaphore k of the pool, with a time of waking of 0, and p + 2 is runnable (all modulo 64).
-- With two rounds of fuel or more p + 2 runs, but the scheduler has called `sys_sem_wait` for
-- the sleeper, and that has put p to sleep on k: p is no longer free.
pub sys_exit-asleep :
    (fuel k : ℕ) (s : Kernel)
    → s.curr_pid < upcb_num
    → IsBlocked s k (turn s.curr_pid 0)
    → is_runnable (s.user_pcbs (turn s.curr_pid 1)).status ≡ true
    → sys_exit (suc (suc fuel)) s
      ≡ ok
          (exec (turn s.curr_pid 1))
          (running_now (ticked (asleep_on (ticked (exited s)) k)) (turn s.curr_pid 1))
sys_exit-asleep fuel k s lt b ready =
    sys_exit-exited (suc (suc fuel)) s lt
    ∙ sched_process-awake (suc (suc fuel)) (exited s) lt (ground arith)
    ∙ sched_process-blocked fuel k (exited s) lt (ground arith) (ground arith)
        record {
          in_pool = b.in_pool;
          empty = b.empty;
          asleep = ground (arith, b.asleep);
          due = ground (arith, b.due);
          waits = ground (arith, b.waits);
        }
        (ground (arith, ready))
