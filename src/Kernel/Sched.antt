-- ===== src/Kernel/Sched.antt =====
-- kernel/pcb.c, kernel/sem.c and kernel/sched.c. The scheduler takes fuel for the rounds of its
-- endless loop: without a process to run it never ends, which is `hang`.
pub mod Robin
pub mod Sane
pub mod Lone
pub mod Sems
use nju_oslab.Prelude.{
  ℕ, zero, suc, ◌+◌, ◌/◌, ◌%◌, ◌^◌, Bool, true, false, not, ◌&&◌, ◌||◌, Option, none, some, ltb,
  leb, ◌==◌, if◌then◌else◌, ok, hang, M, pure, get, put, my_assert, ◌>>=◌, ◌>>◌, update, add32,
  sub32, minus_one, and_then,
}
use nju_oslab.Kernel.State.{
  Kernel, KernelM, Pcb, Trapframe, Status, free, sleeping, runnable, running, is_sleeping,
  is_runnable, is_running, Exit, back, exec, upcb_num, not_waiting_sem, sem_pool_size, pcb_at,
  pcb_put, get_pid, sem_at, sem_put,
}

abbrev pub e_success : ℕ
e_success = 0

-- E_INVALID, -1
abbrev pub e_invalid : ℕ
e_invalid = minus_one

abbrev pub gd_ut : ℕ
gd_ut = 0x18

abbrev pub gd_ud : ℕ
gd_ud = 0x20

-- The loop of `pcb_init_p0`: every PCB is set free.
unfoldable pub free_pcbs : ℕ → ℕ → (ℕ → Pcb) → ℕ → Pcb
free_pcbs zero i pcbs = pcbs
free_pcbs (suc n) i pcbs = free_pcbs n (i + 1) (
    update pcbs i
      (record (pcbs i) { status = free; runned_time = 0; pid = i; wait_sem = not_waiting_sem }))

-- The frame from which the first process starts: all zero but for these.
unfoldable pub first_frame : (esp eip eflags : ℕ) → Trapframe
first_frame esp eip eflags = record {
  tf_regs = record {
    reg_edi = 0;
    reg_esi = 0;
    reg_ebp = 0;
    reg_oesp = 0;
    reg_ebx = 0;
    reg_edx = 0;
    reg_ecx = 0;
    reg_eax = 0;
  };
  tf_es = gd_ud + 3;
  tf_ds = gd_ud + 3;
  tf_trapno = 0;
  tf_err = 0;
  tf_eip = eip;
  tf_cs = gd_ut + 3;
  tf_eflags = eflags;
  tf_esp = esp;
  tf_ss = gd_ud + 3;
}

-- `pcb` is `&user_pcbs[i]`.
unfoldable pub pcb_init_p0 : (i esp eip eflags : ℕ) → KernelM (Unit {0})
pcb_init_p0 i esp eip eflags = do
  s ← get
  put (record s { user_pcbs = free_pcbs upcb_num 0 s.user_pcbs })
  p ← pcb_at i
  my_assert (p.pid == 0)
  pcb_put i (record p { status = running; runned_time = 0; tf = first_frame esp eip eflags })
  s ← get
  put (record s { cr3 = 0 })

-- `pcb_exec(&user_pcbs[i])`, up to the `iret`, which takes the interrupt flag (bit 9) from the
-- frame of the process.
unfoldable pub pcb_exec : ℕ → KernelM Exit
pcb_exec i = do
  p ← pcb_at i
  pcb_put i (record p { status = running })
  s ← get
  put (record s {
    curr_pid = p.pid;
    cr3 = p.pid;
    esp0 = i;
    interrupts = not (p.tf.tf_eflags / 512 % 2 == 0);
  })
  pure (exec i)

-- `sem >= 0 || sem < SEM_POOL_SIZE`, at an int
unfoldable pub sem_assert : ℕ → Bool
sem_assert sem = ltb sem (2 ^ 31) || (leb (2 ^ 31) sem || ltb sem sem_pool_size)

-- `value > 0`, at an int
unfoldable pub positive_int : ℕ → Bool
positive_int value = ltb 0 value && ltb value (2 ^ 31)

unfoldable pub sys_sem_open : ℕ → ℕ → KernelM ℕ
sys_sem_open sem value = do
  my_assert (sem_assert sem && positive_int value)
  sem_put sem value
  pure sem

unfoldable pub sys_sem_destroy : ℕ → KernelM ℕ
sys_sem_destroy sem = do my_assert (sem_assert sem); sem_put sem 0; pure e_success

unfoldable pub sys_sem_post : ℕ → KernelM ℕ
sys_sem_post sem = do
  my_assert (sem_assert sem)
  count ← sem_at sem
  sem_put sem (add32 count 1)
  pure e_success

-- A count of 0 in `sys_sem_wait`: the current process goes to sleep on the semaphore, unless it is
-- asleep already.
unfoldable pub sem_block : KernelM Exit → ℕ → KernelM Exit
sem_block sched sem = do
  pid ← get_pid
  p ← pcb_at pid
  if is_sleeping p.status
      then pure (back e_invalid)
      else (do pcb_put pid (record p { wait_sem = sem; status = sleeping }); sched)

-- `sys_sem_wait`, over the scheduler that it calls. It acts on the current process, also when the
-- scheduler calls it on behalf of another.
unfoldable pub sem_wait_with : KernelM Exit → ℕ → KernelM Exit
sem_wait_with sched sem = do
  my_assert (sem_assert sem)
  count ← sem_at sem
  if count == 0
      then sem_block sched sem
      else (do sem_put sem (sub32 count 1); pure (back e_success))

-- What the round does with the answer of `sys_sem_wait` for the process i.
unfoldable pub after_wait : ℕ → Exit → KernelM (Option Exit)
after_wait i (exec j) = pure (some (exec j))
after_wait i (back r) =
    if r == e_success
    then (do
      p ← pcb_at i
      pcb_put i (record p { wait_sem = not_waiting_sem })
      e ← pcb_exec i
      pure (some e))
    else pure none

-- The body of the loop at the process i: `none` goes on to the next.
unfoldable pub try_process : KernelM Exit → ℕ → KernelM (Option Exit)
try_process sched i = do
  p ← pcb_at i
  s ← get
  if is_runnable p.status
      then (do e ← pcb_exec i; pure (some e))
      else if is_sleeping p.status && leb p.wakeup_time s.sys_runned_time
      then (if p.wait_sem == not_waiting_sem
          then (do e ← pcb_exec i; pure (some e))
          else (do r ← sem_wait_with sched p.wait_sem; after_wait i r))
      else pure none

-- Where the round stands after an answer: the rest of it, or the end.
unfoldable pub continue_with : KernelM (Option Exit) → Option Exit → KernelM (Option Exit)
continue_with rest none = rest
continue_with rest (some e) = pure (some e)

-- `for (round_robin = ...; round_robin < UPCB_NUM; ...)`, with the rounds left.
unfoldable pub sched_round : KernelM Exit → ℕ → ℕ → ℕ → KernelM (Option Exit)
sched_round sched original zero rr = pure none
sched_round sched original (suc n) rr =
    let rest = sched_round sched original n (rr + 1) in
    let i = (rr + original + 1) % upcb_num in
    if i == original then rest else (do r ← try_process sched i; continue_with rest r)

-- The end of a round: the process that it chose, or the next round.
unfoldable pub next_round : KernelM Exit → Option Exit → KernelM Exit
next_round again none = again
next_round again (some e) = pure e

unfoldable pub not_running : KernelM (Unit {0})
not_running = do pid ← get_pid; p ← pcb_at pid; my_assert (not (is_running p.status))

-- `sys_runned_time++`
unfoldable pub tick_clock : KernelM (Unit {0})
tick_clock s = ok tt (record s { sys_runned_time = add32 s.sys_runned_time 1 })

-- `while (true)` of `sched_process`. The scheduler that `sys_sem_wait` calls is this one, with the
-- assertion in front and one round of fuel less.
unfoldable pub sched_loop : ℕ → ℕ → KernelM Exit
sched_loop zero original s = hang
sched_loop (suc fuel) original s =
    let again = sched_loop fuel original in
    (do tick_clock; r ← sched_round (not_running >> again) original upcb_num 0; next_round again r)
      s

unfoldable pub sched_process : ℕ → KernelM Exit
sched_process fuel = do original ← get_pid; not_running; sched_loop fuel original

unfoldable pub sys_sem_wait : ℕ → ℕ → KernelM Exit
sys_sem_wait fuel = sem_wait_with (sched_process fuel)
