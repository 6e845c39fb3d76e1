-- ===== src/Kernel/Syscall.antt =====
-- kernel/syscall.c and inc/syscall.h.
pub mod Sane
pub mod Fork
pub mod Stuck
pub mod Fair
pub mod Tests
use nju_oslab.Prelude.{
  ℕ, zero, suc, ◌+◌, ◌*◌, ◌%◌, ◌^◌, Bool, true, false, not, ◌&&◌, Option, none, some, ltb, ◌==◌,
  if◌then◌else◌, ok, hang, panic, fault, M, Run, pure, get, put, my_assert, in_range, ◌>>=◌, ◌>>◌,
  update, add32, minus_one, and_then,
}
use nju_oslab.Kernel.State.{
  Kernel, KernelM, Pcb, PushRegs, Trapframe, free, sleeping, runnable, is_free, Exit, exec, back,
  upcb_num, pcb_at, pcb_put, get_pid,
}
use nju_oslab.Kernel.Pmap.{translate, pmap_init_and_copy, pmap_copy_one_page}
use nju_oslab.Kernel.Sched.{
  e_success, sys_sem_open, sys_sem_destroy, sys_sem_post, sys_sem_wait, sched_process,
}

-- `SYS_vprintk` and the numbers after it.
pub data Sysno : Type 0 where
  vprintk exit timer keyboard display crash sleep wait_intr getpid fork : Sysno
  sem_open sem_destroy sem_wait sem_post mem_share : Sysno
  unknown : Sysno

-- The number in `eax`, as the `switch` reads it.
unfoldable pub sysno : ℕ → Sysno
sysno n =
    if n == 0
    then vprintk
    else if n == 1
    then exit
    else if n == 2
    then timer
    else if n == 3
    then keyboard
    else if n == 4
    then display
    else if n == 5
    then crash
    else if n == 6
    then sleep
    else if n == 7
    then wait_intr
    else if n == 8
    then getpid
    else if n == 9
    then fork
    else if n == 10
    then sem_open
    else if n == 11
    then sem_destroy
    else if n == 12
    then sem_wait
    else if n == 13
    then sem_post
    else if n == 14
    then mem_share
    else unknown

-- What the handlers reach beyond the state: where the linker put the page tables, the rounds that
-- the scheduler may take, the printing on the serial line, and the interrupt that ends a `hlt`.
pub record Env : Type 0 where
  pub tables : ℕ
  pub fuel : ℕ
  pub print : ℕ → ℕ → Kernel → Kernel
  pub interrupt : KernelM Exit

-- The physical address of the frame buffer is 0xA0000; 320 * 200 bytes are copied to it, with the
-- bytes left and the offset.
abbrev pub vmem_addr : ℕ
vmem_addr = 0xA_0000

abbrev pub scr_size : ℕ
scr_size = 320 * 200

-- One byte, at the physical address that the user's address leads to.
unfoldable pub show_byte : ℕ → Option ℕ → KernelM (Unit {0})
show_byte o none s = fault
show_byte o (some f) s = ok tt (record s { ram = update s.ram (vmem_addr + o) (s.ram f) })

unfoldable pub display_from : ℕ → ℕ → ℕ → ℕ → KernelM (Unit {0})
display_from tables zero o buffer = pure tt
display_from tables (suc n) o buffer = do
  s ← get
  show_byte o (translate tables s (buffer + o))
  display_from tables n (o + 1) buffer

unfoldable pub sys_timer : ℕ → KernelM (Unit {0})
sys_timer handler s = ok tt (record s { do_timer = handler })

unfoldable pub sys_keyboard : ℕ → KernelM (Unit {0})
sys_keyboard handler s = ok tt (record s { do_keyboard = handler })

unfoldable pub sys_display : ℕ → ℕ → KernelM (Unit {0})
sys_display tables buffer = display_from tables scr_size 0 buffer

unfoldable pub sys_sleep : ℕ → ℕ → KernelM Exit
sys_sleep fuel time = do
  pid ← get_pid
  p ← pcb_at pid
  s ← get
  pcb_put pid (record p { status = sleeping; wakeup_time = add32 s.sys_runned_time time })
  sched_process fuel

unfoldable pub sys_exit : ℕ → KernelM Exit
sys_exit fuel = do
  pid ← get_pid
  p ← pcb_at pid
  pcb_put pid (record p { status = free })
  sched_process fuel

-- `cli`, if the interrupt in front of it comes back.
unfoldable pub after_hlt : Exit → KernelM Exit
after_hlt (exec i) s = ok (exec i) s
after_hlt (back v) s = ok (back 0) (record s { interrupts = false })

-- `sti; hlt; cli`: one interrupt is taken in between, which may leave for another process.
unfoldable pub sys_wait_intr : KernelM Exit → KernelM Exit
sys_wait_intr interrupt s = and_then (interrupt (record s { interrupts = true })) after_hlt

-- The search for a free PCB, with the rounds left; `none` is `new_pid == UPCB_NUM`.
unfoldable pub free_pcb : (ℕ → Pcb) → ℕ → ℕ → ℕ → Option ℕ
free_pcb pcbs old_pid zero new_pid = none
free_pcb pcbs old_pid (suc n) new_pid =
    let rest = free_pcb pcbs old_pid n (new_pid + 1) in
    if not (new_pid == old_pid) && is_free (pcbs new_pid).status then some new_pid else rest

-- The copy of the parent that the child starts as.
unfoldable pub child_of : Pcb → ℕ → Pcb
child_of p new_pid = record p {
  pid = new_pid;
  status = runnable;
  tf = record p.tf { tf_regs = record p.tf.tf_regs { reg_eax = 0 } };
}

unfoldable pub fork_into : ℕ → ℕ → ℕ → KernelM ℕ
fork_into tables old_pid new_pid = do
  p ← pcb_at old_pid
  pcb_put new_pid (child_of p new_pid)
  pmap_init_and_copy tables new_pid old_pid
  pure new_pid

-- `if (new_pid == UPCB_NUM) panic(...)` and what follows.
unfoldable pub fork_to : ℕ → ℕ → Option ℕ → KernelM ℕ
fork_to tables old_pid none s = panic
fork_to tables old_pid (some new_pid) s = fork_into tables old_pid new_pid s

unfoldable pub sys_fork : ℕ → KernelM ℕ
sys_fork tables = do
  old_pid ← get_pid
  s ← get
  fork_to tables old_pid (free_pcb s.user_pcbs old_pid upcb_num 0)

unfoldable pub sys_mem_share : ℕ → ℕ → ℕ → KernelM ℕ
sys_mem_share dest_pid src_pid va = do pmap_copy_one_page dest_pid src_pid va; pure e_success

-- A call that returns to the handler with a value.
abbrev pub value : KernelM ℕ → KernelM Exit
value m = do v ← m; pure (back v)

abbrev pub no_value : KernelM (Unit {0}) → KernelM Exit
no_value m = do m; pure (back 0)

unfoldable pub dispatch : Env → Sysno → PushRegs → KernelM Exit
dispatch env vprintk r = no_value (λ s. ok tt (env.print r.reg_edx r.reg_ecx s))
dispatch env exit r = sys_exit env.fuel
dispatch env fork r = value (sys_fork env.tables)
dispatch env timer r = no_value (sys_timer r.reg_edx)
dispatch env keyboard r = no_value (sys_keyboard r.reg_edx)
dispatch env display r = no_value (sys_display env.tables r.reg_edx)
dispatch env sleep r = sys_sleep env.fuel r.reg_edx
dispatch env wait_intr r = sys_wait_intr env.interrupt
dispatch env crash r = λ _. hang
dispatch env getpid r = value get_pid
dispatch env sem_open r = value (sys_sem_open r.reg_edx r.reg_ecx)
dispatch env sem_destroy r = value (sys_sem_destroy r.reg_edx)
dispatch env sem_wait r = sys_sem_wait env.fuel r.reg_edx
dispatch env sem_post r = value (sys_sem_post r.reg_edx)
dispatch env mem_share r = value (sys_mem_share r.reg_edx r.reg_ecx r.reg_ebx)
dispatch env unknown r = pure (back minus_one)

-- `disable_interrupt()`
unfoldable pub cli : KernelM (Unit {0})
cli s = ok tt (record s { interrupts = false })

unfoldable pub syscall_handler : Env → Trapframe → KernelM Exit
syscall_handler env tf = do cli; dispatch env (sysno tf.tf_regs.reg_eax) tf.tf_regs
