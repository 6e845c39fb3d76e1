-- ===== src/Kernel/Syscall/Tests.antt =====
-- Kernels on which the theorems on the system calls are used.
use nju_oslab.Prelude.{
  ℕ, ◌<◌, ◌≢◌, ◌≡◌, ◌⊎◌, inl, inr, true, refl, arith, ltb, Bool-cases, ◌+◌, ◌*◌, ◌^◌, ok, fault,
  hang, Returns,
}
use nju_oslab.Kernel.State.{upcb_num, exec}
use nju_oslab.Kernel.Sched.Sane.{IsSane}
use nju_oslab.Kernel.Sched.Robin.{is_ready, is_skipped, running_now, ticked}
use nju_oslab.Kernel.Tests.{crowded, alone, waiting}
use nju_oslab.Kernel.Syscall.Fair.{IsSlice, RunsWithin, sys_sleep-RunsWithin}
use nju_oslab.Kernel.Pmap.Forked.{memory_of}
use nju_oslab.Kernel.Syscall.{sys_fork, sys_sleep, sys_exit}
use nju_oslab.Kernel.Syscall.Fork.{IsFirstFree, IsChild, sys_fork-HasCopy, sys_fork-fault}
use nju_oslab.Kernel.Syscall.Stuck.{asleep_on, exited, sys_sleep-hang, sys_exit-asleep}

crowded-IsSane : IsSane crowded
crowded-IsSane = record {
  pids = λ i p. refl;
  current = omega arith;
  one_runs = λ i p. ground arith;
  stack = refl;
  directory = refl;
}

-- There are slices: the running process may do nothing.
crowded-IsSlice : IsSlice 5 crowded crowded
crowded-IsSlice = record { sane = crowded-IsSane; same = refl; waiting = refl; others = others }
  where
    others :
        (i : ℕ)
        → i < upcb_num
        → i ≢ 0
        → (is_ready 1 (crowded.user_pcbs i) ≡ true) ⊎ (is_skipped 1 (crowded.user_pcbs i) ≡ true)
    others i p ne = elim (Bool-cases (ltb i 28)) [
      | inl e ↦ inl (ground (arith, e, ne))
      | inr e ↦ inr (ground (arith, e, ne))
    ]

sys_sleep-RunsWithin_example : RunsWithin 1 5 5 crowded
sys_sleep-RunsWithin_example =
    sys_sleep-RunsWithin 0 5 (omega arith) 5 crowded crowded-IsSane (omega arith)

alone-IsFirstFree : IsFirstFree alone.user_pcbs 0 1
alone-IsFirstFree = record {
  in_range = omega arith;
  other = omega arith;
  unused = refl;
  first = λ i p ne. absurd (omega (arith, ne));
}

sys_fork-HasCopy_example :
    Returns
      (λ r t.
        (r ≡ 1)
        × IsChild (alone.user_pcbs 0) 1 (t.user_pcbs 1)
        × (t.user_pcbs 0 ≡ alone.user_pcbs 0)
        × (t.ram (memory_of 1 + 5) ≡ alone.ram (memory_of 0 + 5)))
      (sys_fork (16 * 2 ^ 12) alone)
sys_fork-HasCopy_example =
    sys_fork-HasCopy 16 1 5 alone (omega arith) (omega arith) refl refl (λ j p. refl)
      alone-IsFirstFree (omega arith)

crowded-IsFirstFree : IsFirstFree crowded.user_pcbs 0 28
crowded-IsFirstFree = record {
  in_range = omega arith;
  other = omega arith;
  unused = refl;
  first = λ i p ne. ground arith;
}

sys_fork-fault_example : sys_fork 65536 crowded ≡ fault
sys_fork-fault_example =
    sys_fork-fault 65536 28 crowded (omega arith) crowded-IsFirstFree (omega arith)

sys_sleep-hang_example : sys_sleep 9 1 alone ≡ hang
sys_sleep-hang_example = sys_sleep-hang 9 1 alone (omega arith) (λ i p ne. ground (arith, ne))

sys_exit-asleep_example :
    sys_exit 2 waiting
    ≡ ok (exec 2) (running_now (ticked (asleep_on (ticked (exited waiting)) 0)) 2)
sys_exit-asleep_example =
    sys_exit-asleep 0 0 waiting (omega arith)
      record { in_pool = omega arith; empty = refl; asleep = refl; due = refl; waits = refl } refl
