-- ===== src/Game/Calls/Handled.antt =====
-- The calls that come back, and the kernel's handler of each.
use nju_oslab.Prelude.{ℕ, ◌<◌, ◌≡◌, refl, ok, panic, fault, hang, Run, and_then, pure, lt→ltb}
use nju_oslab.Kernel.State.{
  Kernel, KernelM, PushRegs, Trapframe, Exit, back, pcb_at, pcb_put, get_pid, upcb_num,
}
use nju_oslab.Kernel.Sched.{sys_sem_open, sys_sem_destroy, sys_sem_post, sys_sem_wait}
use nju_oslab.Kernel.Syscall.{
  Env, sysno, dispatch, value, no_value, sys_fork, sys_timer, sys_keyboard, sys_display, sys_sleep,
  sys_wait_intr, sys_mem_share,
}
use nju_oslab.Kernel.Trap.{Devices, store_eax}
use nju_oslab.Game.Calls
use nju_oslab.Game.Calls.{expect_zero}
use nju_oslab.Game.Calls.Reach.{entered, answered, int80-answered}

-- A call of the game with its arguments.
pub data Request : Type 0 where
  vprintk : (ctl arg : ℕ) → Request
  timer keyboard : (handler : ℕ) → Request
  display : (buffer : ℕ) → Request
  getpid wait_intr fork : Request
  sleep : (time : ℕ) → Request
  sem_open : (sem count : ℕ) → Request
  sem_post sem_wait sem_destroy : (sem : ℕ) → Request
  mem_share : (dest_pid src_pid va : ℕ) → Request

-- The registers as the call loads them.
abbrev pub loads : PushRegs → Request → PushRegs
loads r (vprintk ctl arg) = record r { reg_eax = 0; reg_edx = ctl; reg_ecx = arg }
loads r (timer handler) = record r { reg_eax = 2; reg_edx = handler }
loads r (keyboard handler) = record r { reg_eax = 3; reg_edx = handler }
loads r (display buffer) = record r { reg_eax = 4; reg_edx = buffer }
loads r getpid = record r { reg_eax = 8 }
loads r wait_intr = record r { reg_eax = 7 }
loads r fork = record r { reg_eax = 9 }
loads r (sleep time) = record r { reg_eax = 6; reg_edx = time }
loads r (sem_open sem count) = record r { reg_eax = 10; reg_edx = sem; reg_ecx = count }
loads r (sem_post sem) = record r { reg_eax = 13; reg_edx = sem }
loads r (sem_wait sem) = record r { reg_eax = 12; reg_edx = sem }
loads r (sem_destroy sem) = record r { reg_eax = 11; reg_edx = sem }
loads r (mem_share dest_pid src_pid va) = record r {
  reg_eax = 14;
  reg_edx = dest_pid;
  reg_ecx = src_pid;
  reg_ebx = va;
}

-- The frame that the call pushes.
abbrev pub pushed : Trapframe → Request → Trapframe
pushed f q = record f { tf_regs = loads f.tf_regs q }

module _ (env : Env) (dev : Devices) (f : Trapframe) where
  -- The function of game/syscall.c.
  abbrev pub wrapper : Request → KernelM Exit
  wrapper (vprintk ctl arg) = Calls.sys_vprintk env dev f ctl arg
  wrapper (timer handler) = Calls.sys_timer env dev f handler
  wrapper (keyboard handler) = Calls.sys_keyboard env dev f handler
  wrapper (display buffer) = Calls.sys_display env dev f buffer
  wrapper getpid = Calls.sys_getpid env dev f
  wrapper wait_intr = Calls.sys_wait_intr env dev f
  wrapper fork = Calls.sys_fork env dev f
  wrapper (sleep time) = Calls.sys_sleep env dev f time
  wrapper (sem_open sem count) = Calls.sys_sem_open env dev f sem count
  wrapper (sem_post sem) = Calls.sys_sem_post env dev f sem
  wrapper (sem_wait sem) = Calls.sys_sem_wait env dev f sem
  wrapper (sem_destroy sem) = Calls.sys_sem_destroy env dev f sem
  wrapper (mem_share dest_pid src_pid va) = Calls.sys_mem_share env dev f dest_pid src_pid va

  -- The function of the kernel, on the same arguments.
  abbrev pub handler_of : Request → KernelM Exit
  handler_of (vprintk ctl arg) = no_value (λ s. ok tt (env.print ctl arg s))
  handler_of (timer handler) = no_value (sys_timer handler)
  handler_of (keyboard handler) = no_value (sys_keyboard handler)
  handler_of (display buffer) = no_value (sys_display env.tables buffer)
  handler_of getpid = value get_pid
  handler_of wait_intr = sys_wait_intr env.interrupt
  handler_of fork = value (sys_fork env.tables)
  handler_of (sleep time) = sys_sleep env.fuel time
  handler_of (sem_open sem count) = value (sys_sem_open sem count)
  handler_of (sem_post sem) = value (sys_sem_post sem)
  handler_of (sem_wait sem) = sys_sem_wait env.fuel sem
  handler_of (sem_destroy sem) = value (sys_sem_destroy sem)
  handler_of (mem_share dest_pid src_pid va) = value (sys_mem_share dest_pid src_pid va)

  module _ (s : Kernel) (lt : s.esp0 < upcb_num) where
    -- The assertion of a call that wants 0 holds when the handler answers none.
    zero_expected :
        (m : Run Kernel (Unit {0}))
        → and_then (and_then (and_then m (λ _. pure (back 0))) (store_eax s.esp0)) expect_zero
          ≡ and_then (and_then m (λ _. pure (back 0))) (store_eax s.esp0)
    unfolding expect_zero store_eax pcb_at pcb_put
    zero_expected (ok _ t) = rw (lt→ltb s.esp0 upcb_num lt) refl
    zero_expected panic = refl
    zero_expected fault = refl
    zero_expected hang = refl

    -- The call as the assertion sees it.
    checked :
        (regs : PushRegs) (m : KernelM (Unit {0}))
        → dispatch env (sysno regs.reg_eax) regs ≡ no_value m
        → and_then (Calls.int80 env dev f regs s) expect_zero
          ≡ answered s.esp0 (no_value m) (entered (record f { tf_regs = regs }) s)
    checked regs m e =
        rw (int80-answered env dev s lt f regs, e)
          (zero_expected (m (entered (record f { tf_regs = regs }) s)))

    -- For a kernel whose stack is that of one of the 64 processes: each system call that the
    -- game makes and that can come back runs the kernel's handler of that name on the same
    -- arguments, with the call's registers, the number of the trap, the error code 0 and what
    -- the processor pushes (any values) in the frame of the process and interrupts off, and
    -- comes back with the answer of the handler, which is stored in the frame; the assertions
    -- that want the answer 0 hold.
    pub wrapper-handler_of :
        (q : Request) → wrapper q s ≡ answered s.esp0 (handler_of q) (entered (pushed f q) s)
    unfolding Calls.sys_vprintk Calls.sys_timer Calls.sys_keyboard Calls.sys_display
        Calls.sys_getpid Calls.sys_wait_intr Calls.sys_fork Calls.sys_sleep Calls.sys_sem_open
        Calls.sys_sem_post Calls.sys_sem_wait Calls.sys_sem_destroy Calls.sys_mem_share
        Calls.do_syscall0 Calls.do_syscall1 Calls.do_syscall2 Calls.do_syscall3 sysno dispatch
    wrapper-handler_of (vprintk ctl arg) =
        checked (loads f.tf_regs (vprintk ctl arg)) (λ t. ok tt (env.print ctl arg t)) refl
    wrapper-handler_of (timer h) = checked (loads f.tf_regs (timer h)) (sys_timer h) refl
    wrapper-handler_of (keyboard h) = checked (loads f.tf_regs (keyboard h)) (sys_keyboard h) refl
    wrapper-handler_of (display b) =
        checked (loads f.tf_regs (display b)) (sys_display env.tables b) refl
    wrapper-handler_of getpid = int80-answered env dev s lt f (loads f.tf_regs getpid)
    wrapper-handler_of wait_intr = int80-answered env dev s lt f (loads f.tf_regs wait_intr)
    wrapper-handler_of fork = int80-answered env dev s lt f (loads f.tf_regs fork)
    wrapper-handler_of (sleep time) = int80-answered env dev s lt f (loads f.tf_regs (sleep time))
    wrapper-handler_of (sem_open sem count) =
        int80-answered env dev s lt f (loads f.tf_regs (sem_open sem count))
    wrapper-handler_of (sem_post sem) =
        int80-answered env dev s lt f (loads f.tf_regs (sem_post sem))
    wrapper-handler_of (sem_wait sem) =
        int80-answered env dev s lt f (loads f.tf_regs (sem_wait sem))
    wrapper-handler_of (sem_destroy sem) =
        int80-answered env dev s lt f (loads f.tf_regs (sem_destroy sem))
    wrapper-handler_of (mem_share dest_pid src_pid va) =
        int80-answered env dev s lt f (loads f.tf_regs (mem_share dest_pid src_pid va))
