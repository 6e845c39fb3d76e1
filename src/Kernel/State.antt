-- ===== src/Kernel/State.antt =====
-- inc/pcb.h, inc/trap.h and the globals of the kernel: the state that the handlers change.
use nju_oslab.Prelude.{
  ℕ, Bool, true, false, ltb, M, ok, pure, get, put, in_range, ◌>>=◌, ◌>>◌, update, minus_one,
}

pub record PushRegs : Type 0 where
  pub reg_edi : ℕ
  pub reg_esi : ℕ
  pub reg_ebp : ℕ
  pub reg_oesp : ℕ
  pub reg_ebx : ℕ
  pub reg_edx : ℕ
  pub reg_ecx : ℕ
  pub reg_eax : ℕ

-- The padding has no meaning and is left out.
pub record Trapframe : Type 0 where
  pub tf_regs : PushRegs
  pub tf_es : ℕ
  pub tf_ds : ℕ
  pub tf_trapno : ℕ
  pub tf_err : ℕ
  pub tf_eip : ℕ
  pub tf_cs : ℕ
  pub tf_eflags : ℕ
  pub tf_esp : ℕ
  pub tf_ss : ℕ

-- PCB_FREE and the other values of `status`.
pub data Status : Type 0 where
  free sleeping runnable running not_runnable : Status

abbrev pub is_free : Status → Bool
is_free free = true
is_free _ = false

abbrev pub is_sleeping : Status → Bool
is_sleeping sleeping = true
is_sleeping _ = false

abbrev pub is_runnable : Status → Bool
is_runnable runnable = true
is_runnable _ = false

abbrev pub is_running : Status → Bool
is_running running = true
is_running _ = false

pub record Pcb : Type 0 where
  pub pid : ℕ
  pub parent_pid : ℕ
  pub status : Status
  pub runned_time : ℕ
  pub wakeup_time : ℕ
  pub pcb_pgdir : ℕ
  pub wait_sem : ℕ
  pub kstack : ℕ → ℕ
  pub tf : Trapframe

abbrev pub upcb_num : ℕ
upcb_num = 64

-- -1, in a uint32_t
abbrev pub not_waiting_sem : ℕ
not_waiting_sem = minus_one

abbrev pub sem_pool_size : ℕ
sem_pool_size = 3

-- The globals. `ram` is the physical memory by bytes, `cr3` names the page directory that is
-- loaded by its process, and `esp0` the process on whose stack the next trap is taken. `pending`
-- lists the calls of user handlers, newest first, with the argument of each.
pub record Kernel : Type 0 where
  pub curr_pid : ℕ
  pub user_pcbs : ℕ → Pcb
  pub sem_pool : ℕ → ℕ
  pub sys_runned_time : ℕ
  pub sys_last_time : ℕ
  pub user_pgdir : ℕ → ℕ → ℕ
  pub user_pgtable : ℕ → ℕ → ℕ
  pub entry_pgdir : ℕ → ℕ
  pub do_timer : ℕ
  pub do_keyboard : ℕ
  pub cr3 : ℕ
  pub esp0 : ℕ
  pub interrupts : Bool
  pub ram : ℕ → ℕ

-- How a handler leaves: back to its caller with a value, or by `pcb_exec` into a process.
pub data Exit : Type 0 where
  back : ℕ → Exit
  exec : ℕ → Exit

abbrev pub KernelM : Type 0 → Type 0
KernelM A = M Kernel A

-- `user_pcbs[i]`, read and written: out of the array it is a fault.
unfoldable pub pcb_at : ℕ → KernelM Pcb
pcb_at i = do in_range (ltb i upcb_num); s ← get; pure (s.user_pcbs i)

unfoldable pub pcb_put : ℕ → Pcb → KernelM (Unit {0})
pcb_put i p = do
  in_range (ltb i upcb_num)
  s ← get
  put (record s { user_pcbs = update s.user_pcbs i p })

unfoldable pub get_pid : KernelM ℕ
get_pid s = ok s.curr_pid s

-- `sem_pool[sem].count`
unfoldable pub sem_at : ℕ → KernelM ℕ
sem_at i = do in_range (ltb i sem_pool_size); s ← get; pure (s.sem_pool i)

unfoldable pub sem_put : ℕ → ℕ → KernelM (Unit {0})
sem_put i count = do
  in_range (ltb i sem_pool_size)
  s ← get
  put (record s { sem_pool = update s.sem_pool i count })
