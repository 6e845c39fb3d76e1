-- ===== src/Kernel/Trap.antt =====
-- kernel/trap.c: the descriptor tables and the trap handler.
pub mod Sane
pub mod Gates
use nju_oslab.Prelude.{
  ℕ, zero, suc, ◌+◌, ◌*◌, ◌/◌, Bool, true, false, not, ltb, ◌==◌, if◌then◌else◌, ok, panic, M, pure,
  get, put, my_assert, ◌>>=◌, ◌>>◌, update, add32,
}
use nju_oslab.Mmu.{Segdesc, seg_null, seg, seg16, Gatedesc, setgate}
use nju_oslab.Kernel.State.{Kernel, KernelM, Trapframe, Exit, back, exec, pcb_at, pcb_put, get_pid}
use nju_oslab.Kernel.Sched.{gd_ut, gd_ud, sched_process}
use nju_oslab.Kernel.Syscall.{Env, sys_sleep, syscall_handler}

abbrev pub gd_kt : ℕ
gd_kt = 0x08

abbrev pub gd_kd : ℕ
gd_kd = 0x10

abbrev pub gd_tss0 : ℕ
gd_tss0 = 0x28

abbrev pub kstacktop : ℕ
kstacktop = 0xF040_0000

-- STA_X | STA_R and STA_W
abbrev pub sta_xr : ℕ
sta_xr = 0x8 + 0x2

abbrev pub sta_w : ℕ
sta_w = 0x2

abbrev pub sts_t32a : ℕ
sts_t32a = 0x9

-- The table before `trap_init`: entries that no initializer names are zero.
unfoldable pub gdt : ℕ → Segdesc
gdt i =
    if i == gd_kt / 8
    then seg sta_xr 0x0 0xffff_ffff 0
    else if i == gd_kd / 8
    then seg sta_w 0x0 0xffff_ffff 0
    else if i == gd_ut / 8
    then seg sta_xr 0x0 0xffff_ffff 3
    else if i == gd_ud / 8
    then seg sta_w 0x0 0xffff_ffff 3
    else seg_null

abbrev pub t_brkpt : ℕ
t_brkpt = 3

abbrev pub t_illop : ℕ
t_illop = 6

abbrev pub t_gpflt : ℕ
t_gpflt = 13

abbrev pub t_pgflt : ℕ
t_pgflt = 14

abbrev pub t_syscall : ℕ
t_syscall = 0x80

abbrev pub irq_offset : ℕ
irq_offset = 32

abbrev pub irq_timer : ℕ
irq_timer = 0

abbrev pub irq_kbd : ℕ
irq_kbd = 1

abbrev pub irq_ide : ℕ
irq_ide = 14

abbrev pub sched_time_freq : ℕ
sched_time_freq = 0x60

-- The loop over the 256 gates, with the rounds left.
unfoldable pub set_gates : (ℕ → ℕ) → ℕ → ℕ → (ℕ → Gatedesc) → ℕ → Gatedesc
set_gates trap_handlers zero i idt = idt
set_gates trap_handlers (suc n) i idt =
    set_gates trap_handlers n (i + 1) (update idt i (setgate false gd_kt (trap_handlers i) 0))

pub record Tables : Type 0 where
  pub idt : ℕ → Gatedesc
  pub gdt : ℕ → Segdesc
  pub ts_esp0 : ℕ
  pub ts_ss0 : ℕ

-- `trap_init`, on the tables: `pts` is the address of the task state, of `pts_size` bytes. The
-- loading of the segment registers is left out.
unfoldable pub trap_init : (ℕ → ℕ) → (pts pts_size : ℕ) → Tables → Tables
trap_init trap_handlers pts pts_size t =
    let gates = set_gates trap_handlers 256 0 t.idt in
    let gates = update gates t_brkpt (setgate false gd_kt (trap_handlers t_brkpt) 3) in
    let gates = update gates t_syscall (setgate false gd_kt (trap_handlers t_syscall) 3) in
    record {
      idt = gates;
      gdt = update t.gdt (gd_tss0 / 8) (record (seg16 sts_t32a pts pts_size 0) { sd_s = 0 });
      ts_esp0 = kstacktop;
      ts_ss0 = gd_kd;
    }

-- The user's handlers, called with the kernel's rights, and the scan code of the keyboard.
pub record Devices : Type 0 where
  pub call_timer : ℕ → Kernel → Kernel
  pub call_keyboard : ℕ → ℕ → Kernel → Kernel
  pub scan_code : ℕ

-- `if (do_timer != NULL) do_timer();`
unfoldable pub fire_timer : Devices → KernelM Exit
fire_timer dev s =
    if s.do_timer == 0 then ok (back 0) s else ok (back 0) (dev.call_timer s.do_timer s)

-- The clock and the time slice of the current process.
unfoldable pub count_tick : KernelM (Unit {0})
count_tick = do
  s ← get
  put (record s { sys_runned_time = add32 s.sys_runned_time 1 })
  pid ← get_pid
  p ← pcb_at pid
  pcb_put pid (record p { runned_time = add32 p.runned_time 1 })

-- The timer: every SCHED_TIME_FREQ ticks another process has its turn. `sys_sleep` does not come
-- back, so the call of `sched_process` behind it is not reached.
unfoldable pub timer_irq : Env → Devices → KernelM Exit
timer_irq env dev = do
  count_tick
  s ← get
  if ltb (add32 s.sys_last_time sched_time_freq) s.sys_runned_time
      then (do put (record s { sys_last_time = s.sys_runned_time }); sys_sleep env.fuel 1)
      else fire_timer dev

-- The scan code comes from the port, which is acknowledged.
unfoldable pub keyboard_irq : Devices → KernelM Exit
keyboard_irq dev s =
    if s.do_keyboard == 0
    then ok (back 0) s
    else ok (back 0) (dev.call_keyboard s.do_keyboard dev.scan_code s)

-- `tf->tf_regs.reg_eax = syscall_handler(tf)`, where the frame is that of the current process: the
-- assignment is not reached when the handler leaves by `pcb_exec`.
unfoldable pub store_eax : ℕ → Exit → KernelM Exit
store_eax pid (exec i) = pure (exec i)
store_eax pid (back v) = do
  p ← pcb_at pid
  pcb_put pid (record p { tf = record p.tf { tf_regs = record p.tf.tf_regs { reg_eax = v } } })
  pure (back v)

-- The `switch` on the trap's number, with the frame of the process `pid`. Illegal instructions,
-- faults and unknown numbers panic.
unfoldable pub handle : Env → Devices → ℕ → Trapframe → KernelM Exit
handle env dev pid tf =
    if tf.tf_trapno == t_syscall
    then (do r ← syscall_handler env tf; store_eax pid r)
    else if tf.tf_trapno == irq_offset + irq_timer
    then timer_irq env dev
    else if tf.tf_trapno == irq_offset + irq_kbd
    then keyboard_irq dev
    else if tf.tf_trapno == irq_offset + irq_ide
    then pure (back 0)
    else (λ _. panic)

-- `trap(&user_pcbs[esp0].tf)`
unfoldable pub trap : Env → Devices → KernelM Exit
trap env dev = do
  s ← get
  my_assert (not s.interrupts)
  p ← pcb_at s.esp0
  handle env dev s.esp0 p.tf
