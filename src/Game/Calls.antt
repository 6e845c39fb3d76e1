-- ===== src/Game/Calls.antt =====
-- game/syscall.c: the system calls as the game makes them.
pub mod Reach
pub mod Handled
pub mod Tests
use nju_oslab.Prelude.{ℕ, zero, suc, false, ◌==◌, ok, hang, pure, my_assert, ◌>>=◌, ◌>>◌, get}
use nju_oslab.Kernel.State.{Kernel, KernelM, PushRegs, Trapframe, Exit, back, exec, pcb_at, pcb_put}
use nju_oslab.Kernel.Syscall.{Env}
use nju_oslab.Kernel.Trap.{Devices, t_syscall, trap}

-- `int 0x80`: the processor clears the interrupt flag at the gate and, with kernel/trapentry.S, leaves
-- the frame `f` of the process on its stack, where the error code is 0 and the number that of the trap.
unfoldable pub enter : Trapframe → KernelM (Unit {0})
enter f = do
  s ← get
  p ← pcb_at s.esp0
  pcb_put s.esp0 (record p { tf = record f { tf_trapno = t_syscall; tf_err = 0 } })
  λ t. ok tt (record t { interrupts = false })

-- Back in the process, the answer is what its frame has in `eax`. A call that left by `pcb_exec` goes
-- on in another process.
unfoldable pub resume : ℕ → Exit → KernelM Exit
resume pid (exec i) = pure (exec i)
resume pid (back _) = do p ← pcb_at pid; pure (back p.tf.tf_regs.reg_eax)

-- `my_assert(... == 0)`
unfoldable pub expect_zero : Exit → KernelM Exit
expect_zero (exec i) = pure (exec i)
expect_zero (back v) = do my_assert (v == 0); pure (back v)

-- `f` has what the registers hold that a call does not load, and what the processor saves besides them.
module _ (env : Env) (dev : Devices) (f : Trapframe) where
  unfoldable pub int80 : PushRegs → KernelM Exit
  int80 regs = do s ← get; enter (record f { tf_regs = regs }); e ← trap env dev; resume s.esp0 e

  unfoldable pub do_syscall0 : ℕ → KernelM Exit
  do_syscall0 number = int80 (record f.tf_regs { reg_eax = number })

  unfoldable pub do_syscall1 : ℕ → ℕ → KernelM Exit
  do_syscall1 number a1 = int80 (record f.tf_regs { reg_eax = number; reg_edx = a1 })

  unfoldable pub do_syscall2 : ℕ → ℕ → ℕ → KernelM Exit
  do_syscall2 number a1 a2 =
      int80 (record f.tf_regs { reg_eax = number; reg_edx = a1; reg_ecx = a2 })

  unfoldable pub do_syscall3 : ℕ → ℕ → ℕ → ℕ → KernelM Exit
  do_syscall3 number a1 a2 a3 =
      int80 (record f.tf_regs { reg_eax = number; reg_edx = a1; reg_ecx = a2; reg_ebx = a3 })

  unfoldable pub do_syscall4 : ℕ → ℕ → ℕ → ℕ → ℕ → KernelM Exit
  do_syscall4 number a1 a2 a3 a4 = int80 (record f.tf_regs {
    reg_eax = number;
    reg_edx = a1;
    reg_ecx = a2;
    reg_ebx = a3;
    reg_edi = a4;
  })

  unfoldable pub do_syscall5 : ℕ → ℕ → ℕ → ℕ → ℕ → ℕ → KernelM Exit
  do_syscall5 number a1 a2 a3 a4 a5 = int80 (record f.tf_regs {
    reg_eax = number;
    reg_edx = a1;
    reg_ecx = a2;
    reg_ebx = a3;
    reg_edi = a4;
    reg_esi = a5;
  })

  unfoldable pub sys_vprintk : ℕ → ℕ → KernelM Exit
  sys_vprintk ctl arg = do e ← do_syscall2 0 ctl arg; expect_zero e

  unfoldable pub sys_timer : ℕ → KernelM Exit
  sys_timer handler = do e ← do_syscall1 2 handler; expect_zero e

  unfoldable pub sys_getpid : KernelM Exit
  sys_getpid = do_syscall0 8

  unfoldable pub sys_keyboard : ℕ → KernelM Exit
  sys_keyboard handler = do e ← do_syscall1 3 handler; expect_zero e

  unfoldable pub sys_display : ℕ → KernelM Exit
  sys_display buffer = do e ← do_syscall1 4 buffer; expect_zero e

  -- `for (;;)`, with the rounds that are allowed: it goes on while the call comes back.
  unfoldable pub again : KernelM Exit → ℕ → KernelM Exit
  again call zero = λ _. hang
  again call (suc rounds) =
      let rest = again call rounds in do e ← call; elim e [ back _ ↦ rest | exec i ↦ pure (exec i) ]

  unfoldable pub sys_crash : ℕ → KernelM Exit
  sys_crash = again (do_syscall0 5)

  unfoldable pub sys_exit : ℕ → KernelM Exit
  sys_exit = again (do_syscall0 1)

  unfoldable pub sys_wait_intr : KernelM Exit
  sys_wait_intr = do_syscall0 7

  unfoldable pub sys_fork : KernelM Exit
  sys_fork = do_syscall0 9

  unfoldable pub sys_sleep : ℕ → KernelM Exit
  sys_sleep time = do_syscall1 6 time

  unfoldable pub sys_sem_open : ℕ → ℕ → KernelM Exit
  sys_sem_open sem value = do_syscall2 10 sem value

  unfoldable pub sys_sem_post : ℕ → KernelM Exit
  sys_sem_post sem = do_syscall1 13 sem

  unfoldable pub sys_sem_wait : ℕ → KernelM Exit
  sys_sem_wait sem = do_syscall1 12 sem

  unfoldable pub sys_sem_destroy : ℕ → KernelM Exit
  sys_sem_destroy sem = do_syscall1 11 sem

  unfoldable pub sys_mem_share : ℕ → ℕ → ℕ → KernelM Exit
  sys_mem_share dest_pid src_pid va = do_syscall3 14 dest_pid src_pid va
