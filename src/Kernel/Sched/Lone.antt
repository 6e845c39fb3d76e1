-- ===== src/Kernel/Sched/Lone.antt =====
-- The scheduler with nobody to run: it never looks at the process that called it.
use nju_oslab.Prelude.{
  ℕ, zero, suc, ◌+◌, ◌<◌, ◌≡◌, ◌≢◌, refl, ◌∙◌, Bool, true, false, not, ◌&&◌, Bool-cases, inl, inr,
  ◌==◌, ==→ne, ok, hang, ◌>>◌, add32, arith, none,
}
use nju_oslab.Kernel.State.{
  Kernel, KernelM, Pcb, is_sleeping, is_runnable, is_running, Exit, upcb_num, get_pid,
}
use nju_oslab.Kernel.Sched.{
  sched_round, next_round, not_running, tick_clock, sched_loop, sched_process,
}
use nju_oslab.Kernel.Sched.Robin.{is_skipped, turn, sched_round-pass, pcb_at-ok}

-- Neither asleep nor ready to run: free, not runnable, or taken for running.
abbrev pub is_dormant : Pcb → Bool
is_dormant p = not (is_runnable p.status) && not (is_sleeping p.status)

-- Every process but the current one is dormant.
abbrev pub Lone : Kernel → Type 0
Lone s = (i : ℕ) → i < upcb_num → i ≢ s.curr_pid → is_dormant (s.user_pcbs i) ≡ true

skipped_of_dormant : (now : ℕ) (p : Pcb) → is_dormant p ≡ true → is_skipped now p ≡ true
skipped_of_dormant now p h = ground arith

sched_round-none :
    (sched : KernelM Exit) (n rr : ℕ) (s : Kernel)
    → Lone s
    → sched_round sched s.curr_pid n rr s ≡ ok none s
unfolding sched_round
sched_round-none sched zero rr s h = refl
sched_round-none sched (suc n) rr s h = elim (Bool-cases (turn s.curr_pid rr == s.curr_pid)) [
  | inl e ↦ rw e (sched_round-none sched n (rr + 1) s h)
  | inr e ↦
      sched_round-pass sched s.curr_pid n rr s (
        skipped_of_dormant s.sys_runned_time (s.user_pcbs (turn s.curr_pid rr))
          (h (turn s.curr_pid rr) (omega arith) (==→ne _ s.curr_pid e)))
      ∙ sched_round-none sched n (rr + 1) s h
]

sched_loop-hang : (fuel : ℕ) (s : Kernel) → Lone s → sched_loop fuel s.curr_pid s ≡ hang
unfolding sched_loop tick_clock next_round
sched_loop-hang zero s h = refl
sched_loop-hang (suc fuel) s h =
    rw
      (sched_round-none (not_running >> sched_loop fuel s.curr_pid) upcb_num 0
        (record s { sys_runned_time = add32 s.sys_runned_time 1 }) h)
      (sched_loop-hang fuel (record s { sys_runned_time = add32 s.sys_runned_time 1 }) h)

-- When every other process is dormant the scheduler does not end, for whatever number of rounds,
-- also when the current process only sleeps and its time comes.
pub sched_process-hang :
    (fuel : ℕ) (s : Kernel)
    → s.curr_pid < upcb_num
    → is_running (s.user_pcbs s.curr_pid).status ≡ false
    → Lone s
    → sched_process fuel s ≡ hang
unfolding sched_process not_running get_pid
sched_process-hang fuel s lt stopped h =
    rw (pcb_at-ok s.curr_pid s lt, stopped) (sched_loop-hang fuel s h)
