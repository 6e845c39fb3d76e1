-- ===== src/Kernel/Tests.antt =====
-- Kernels on which the theorems on the processes are used.
use nju_oslab.Prelude.{
  ℕ, ◌+◌, ◌-◌, ◌*◌, ◌%◌, ◌^◌, ◌≡◌, refl, true, false, bit_or, ltb, ◌==◌, if◌then◌else◌, some, ok,
  Ensures, Returns, arith, ◌>>=◌,
}
use nju_oslab.Kernel.State.{
  Kernel, Pcb, Trapframe, Status, free, sleeping, runnable, running, not_waiting_sem, exec, back,
}
use nju_oslab.Kernel.Frame.{SameProcesses}
use nju_oslab.Kernel.Pmap.{
  frame_entry, alloc_page, translate, pmap_copy_one_page, kern_mem, user_start,
}
use nju_oslab.Kernel.Pmap.Maps.{alloc_page-Maps}
use nju_oslab.Kernel.Pmap.Shared.{alloc_page-translate, pmap_copy_one_page-translate}
use nju_oslab.Kernel.Sched.{sched_process, sys_sem_open}
use nju_oslab.Kernel.Sched.Robin.{IsNext, running_now, ticked, sched_process-IsNext}
use nju_oslab.Kernel.Sched.Sane.{IsIdle, IsSane, Runs, sched_process-Runs}
use nju_oslab.Kernel.Sched.Sems.{waits, sys_sem_open-waits}
use nju_oslab.Kernel.Syscall.{Env}
use nju_oslab.Kernel.Trap.{Devices, Tables, trap, trap_init}
use nju_oslab.Kernel.Trap.Sane.{trap-IsSane}
use nju_oslab.Kernel.Trap.Gates.{IsInterruptGate, trap_init-IsInterruptGate}
use nju_oslab.Kernel.Entrypgdir.{entry_translate, entry_translate_lem}
use nju_oslab.Mmu.{setgate, seg_null, pdx, ptx}

-- The frame of a `getpid`, which is the call number 8.
abbrev pub getpid_frame : Trapframe
getpid_frame = record {
  tf_regs = record {
    reg_edi = 0;
    reg_esi = 0;
    reg_ebp = 0;
    reg_oesp = 0;
    reg_ebx = 0;
    reg_edx = 0;
    reg_ecx = 0;
    reg_eax = 8;
  };
  tf_es = 0;
  tf_ds = 0;
  tf_trapno = 128;
  tf_err = 0;
  tf_eip = 0;
  tf_cs = 0;
  tf_eflags = 514;
  tf_esp = 0;
  tf_ss = 0;
}

abbrev pub pcb : Status → ℕ → ℕ → Pcb
pcb status wait_sem i = record {
  pid = i;
  parent_pid = 0;
  status = status;
  runned_time = 0;
  wakeup_time = 0;
  pcb_pgdir = 0;
  wait_sem = wait_sem;
  kstack = λ _. 0;
  tf = getpid_frame;
}

-- A kernel whose current process is 0 and whose processes have the given statuses. The page tables
-- lie from 0x10000 on, and each process has its own 4 MB.
abbrev pub kernel : (ℕ → Status) → ℕ → Kernel
kernel status wait_sem = record {
  curr_pid = 0;
  user_pcbs = λ i. pcb (status i) wait_sem i;
  sem_pool = λ _. 0;
  sys_runned_time = 0;
  sys_last_time = 0;
  user_pgdir = λ p i. if i == 32 then bit_or (16 * 2 ^ 12 + p * 4096) 7 else 0;
  user_pgtable = λ p j. frame_entry p j 7;
  entry_pgdir = λ _. 0;
  do_timer = 0;
  do_keyboard = 0;
  cr3 = 0;
  esp0 = 0;
  interrupts = false;
  ram = λ a. a % 256;
}

abbrev pub alone : Kernel
alone = kernel (λ i. if i == 0 then running else free) not_waiting_sem

abbrev all_asleep : Kernel
all_asleep = kernel (λ i. if i == 0 then sleeping else free) not_waiting_sem

abbrev two_ready : Kernel
two_ready =
    kernel (λ i. if i == 0 then sleeping else if i == 2 then runnable else free) not_waiting_sem

abbrev pub crowded : Kernel
crowded =
    kernel (λ i. if i == 0 then running else if ltb i 28 then runnable else free) not_waiting_sem

abbrev pub waiting : Kernel
waiting = kernel (λ i. if i == 0 then running else if i == 1 then sleeping else runnable) 0

abbrev pub quiet_env : Env
quiet_env = record { tables = 65536; fuel = 3; print = λ _ _ s. s; interrupt = λ s. ok (back 0) s }

abbrev pub quiet_devices : Devices
quiet_devices = record { call_timer = λ _ s. s; call_keyboard = λ _ _ s. s; scan_code = 30 }

two_ready-IsNext : IsNext 1 0 1 two_ready.user_pcbs
two_ready-IsNext = record {
  in_round = omega arith;
  other = omega arith;
  ready = refl;
  skipped = λ m p. ground arith;
}

sched_process-IsNext_example :
    sched_process 1 two_ready ≡ ok (exec 2) (running_now (ticked two_ready) 2)
sched_process-IsNext_example =
    sched_process-IsNext 0 1 two_ready (omega arith) refl two_ready-IsNext

two_ready-IsIdle : IsIdle two_ready
two_ready-IsIdle = record {
  pids = λ i p. refl;
  current = omega arith;
  none_runs = λ i p. ground arith;
}

sched_process-Runs_example : Ensures Runs (sched_process 1 two_ready)
sched_process-Runs_example = sched_process-Runs 1 two_ready two_ready-IsIdle

alone-IsSane : IsSane alone
alone-IsSane = record {
  pids = λ i p. refl;
  current = omega arith;
  one_runs = λ i p. ground arith;
  stack = refl;
  directory = refl;
}

same : (s : Kernel) → SameProcesses s s
same s = record { pcbs = refl; current = refl; stack = refl; directory = refl }

trap-IsSane_example : Ensures (λ _ t. IsSane t) (trap quiet_env quiet_devices alone)
trap-IsSane_example =
    trap-IsSane quiet_env quiet_devices record { print = λ ctl arg s. same s; interrupt = λ s h. h }
      record { timer = λ f s. same s; keyboard = λ f code s. same s } alone alone-IsSane

alloc_page-Maps_example :
    Returns
      (λ pa t.
        (pa ≡ kern_mem + 0 * 2 ^ 22)
        × (translate (16 * 2 ^ 12) t 0x8048123 ≡ some (pa + 0x8048123 % 2 ^ 22)))
      (alloc_page (16 * 2 ^ 12) user_start 7 0 alone)
unfolding pdx
alloc_page-Maps_example =
    alloc_page-Maps 16 user_start 7 0 0x8048123 alone (omega arith) (omega arith) refl refl refl

alloc_page-translate_example :
    Returns
      (λ _ t. translate (16 * 2 ^ 12) t 0x8048123 ≡ translate (16 * 2 ^ 12) alone 0x8048123)
      (alloc_page (16 * 2 ^ 12) user_start 7 1 alone)
unfolding pdx
alloc_page-translate_example =
    alloc_page-translate 16 user_start 7 1 0 0x8048123 alone (omega arith) (omega arith) refl refl

pmap_copy_one_page-translate_example :
    Returns
      (λ _ t.
        translate (16 * 2 ^ 12) (record t { cr3 = 3 }) 0x8049ABC
        ≡ translate (16 * 2 ^ 12) (record alone { cr3 = 0 }) 0x8049ABC)
      (pmap_copy_one_page 3 0 0x8049000 alone)
unfolding pdx ptx
pmap_copy_one_page-translate_example =
    pmap_copy_one_page-translate 16 3 0 0x8049000 0x8049ABC alone (omega arith) (omega arith) refl
      refl refl refl

sys_sem_open-waits_example :
    Returns
      (λ e t. (e ≡ back 0) × (t.sem_pool 0 ≡ 2 - 2) × (t.user_pcbs ≡ alone.user_pcbs))
      ((do _ ← sys_sem_open 0 2; waits 3 0 2) alone)
sys_sem_open-waits_example =
    sys_sem_open-waits 3 0 2 2 alone (omega arith) (omega arith) (omega arith) (omega arith)

abbrev handlers : ℕ → ℕ
handlers k = 0xF010_0000 + 16 * k

abbrev tables : Tables
tables = record { idt = λ _. setgate true 0 0 0; gdt = λ _. seg_null; ts_esp0 = 0; ts_ss0 = 0 }

trap_init-IsInterruptGate_example :
    IsInterruptGate ((trap_init handlers 0xF011_0000 104 tables).idt 128) (handlers 128) 8 3
trap_init-IsInterruptGate_example =
    trap_init-IsInterruptGate handlers 0xF011_0000 104 tables 128 (omega arith)

entry_translate_lem_example : entry_translate (9 * 2 ^ 12) 0xF000_1234 ≡ some 0x1234
entry_translate_lem_example = entry_translate_lem 9 0xF000_1234 (omega arith)
