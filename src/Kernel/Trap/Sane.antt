-- ===== src/Kernel/Trap/Sane.antt =====
-- Every trap keeps the kernel sane: one process runs, the current one, on its own stack.
use nju_oslab.Prelude.{
  ℕ, ◌+◌, ◌<◌, refl, Bool, not, Bool-cases, inl, inr, ◌==◌, ltb, ltb→lt, pure, my_assert, ◌>>=◌,
  ◌>>◌, Ensures, Ensures-bind, add32,
}
use nju_oslab.Kernel.State.{
  Kernel, KernelM, Pcb, Trapframe, Exit, back, exec, upcb_num, pcb_at, pcb_put, get_pid,
}
use nju_oslab.Kernel.Frame.{SameProcesses}
use nju_oslab.Kernel.Sched.Sane.{IsSane, IsSane-same}
use nju_oslab.Kernel.Syscall.{Env, syscall_handler}
use nju_oslab.Kernel.Syscall.Sane.{
  IsTame, Sane, sys_sleep-Sane, pcb_put-Sane, same-rest, syscall_handler-Sane,
}
use nju_oslab.Kernel.Trap.{
  Devices, t_syscall, irq_offset, irq_timer, irq_kbd, irq_ide, sched_time_freq, fire_timer,
  count_tick, timer_irq, keyboard_irq, store_eax, handle, trap,
}

-- The user's handlers leave the processes alone.
pub record IsPolite (dev : Devices) : Type 0 where
  pub timer : (f : ℕ) (s : Kernel) → SameProcesses s (dev.call_timer f s)
  pub keyboard : (f code : ℕ) (s : Kernel) → SameProcesses s (dev.call_keyboard f code s)

-- What follows a read of a PCB, in or out of the array.
pcb_at-Sane :
    {A : Type 0} (i : ℕ) (k : Pcb → KernelM A) (s : Kernel)
    → (i < upcb_num → Ensures Sane (k (s.user_pcbs i) s))
    → Ensures Sane ((pcb_at i >>= k) s)
unfolding pcb_at
pcb_at-Sane i k s f = elim (Bool-cases (ltb i upcb_num)) [
  | inr out ↦ rw out tt
  | inl lt ↦ rw lt (f (ltb→lt i upcb_num lt))
]

assert-Sane :
    {A : Type 0} (b : Bool) (k : KernelM A) (s : Kernel)
    → Ensures Sane (k s)
    → Ensures Sane ((my_assert b >> k) s)
assert-Sane b k s f = elim (Bool-cases b) [ inl e ↦ rw e f | inr e ↦ rw e tt ]

store_eax-Sane : (pid : ℕ) (e : Exit) (s : Kernel) → IsSane s → Ensures Sane (store_eax pid e s)
unfolding store_eax
store_eax-Sane pid (exec i) s h = h
store_eax-Sane pid (back v) s h = pcb_at-Sane pid _ s (λ lt.
    Ensures-bind Sane Sane (pcb_put pid _ s) (λ _. pure (back v))
      (pcb_put-Sane pid _ s (h.pids pid lt) (h.one_runs pid lt) h) (λ _ t g. g))

count_tick-Sane : (s : Kernel) → IsSane s → Ensures Sane (count_tick s)
unfolding count_tick get_pid
count_tick-Sane s h =
    pcb_at-Sane s.curr_pid _ (record s { sys_runned_time = add32 s.sys_runned_time 1 })
      (λ lt.
        pcb_put-Sane s.curr_pid _ _ (h.pids s.curr_pid lt) (h.one_runs s.curr_pid lt)
          (same-rest s refl refl refl refl h))

module _ (env : Env) (dev : Devices) (tame : IsTame env) (polite : IsPolite dev) where
  fire_timer-Sane : (s : Kernel) → IsSane s → Ensures Sane (fire_timer dev s)
  unfolding fire_timer
  fire_timer-Sane s h = elim (Bool-cases (s.do_timer == 0)) [
    | inl e ↦ rw e h
    | inr e ↦ rw e (IsSane-same (polite.timer s.do_timer s) h)
  ]

  keyboard_irq-Sane : (s : Kernel) → IsSane s → Ensures Sane (keyboard_irq dev s)
  unfolding keyboard_irq
  keyboard_irq-Sane s h = elim (Bool-cases (s.do_keyboard == 0)) [
    | inl e ↦ rw e h
    | inr e ↦ rw e (IsSane-same (polite.keyboard s.do_keyboard dev.scan_code s) h)
  ]

  timer_irq-Sane : (s : Kernel) → IsSane s → Ensures Sane (timer_irq env dev s)
  unfolding timer_irq
  timer_irq-Sane s h = Ensures-bind Sane Sane (count_tick s) _ (count_tick-Sane s h) (λ _ t g.
      elim (Bool-cases (ltb (add32 t.sys_last_time sched_time_freq) t.sys_runned_time)) [
        | inl e ↦ rw e (sys_sleep-Sane env.fuel 1 _ (same-rest t refl refl refl refl g))
        | inr e ↦ rw e (fire_timer-Sane t g)
      ])

  handle-Sane :
      (pid : ℕ) (tf : Trapframe) (s : Kernel) → IsSane s → Ensures Sane (handle env dev pid tf s)
  unfolding handle
  handle-Sane pid tf s h = elim (Bool-cases (tf.tf_trapno == t_syscall)) [
    | inl e ↦ rw e (
        Ensures-bind Sane Sane (syscall_handler env tf s) (store_eax pid)
          (syscall_handler-Sane env tame tf s h) (λ r t g. store_eax-Sane pid r t g))
    | inr e ↦ rw e (elim (Bool-cases (tf.tf_trapno == irq_offset + irq_timer)) [
      | inl f ↦ rw f (timer_irq-Sane s h)
      | inr f ↦ rw f (elim (Bool-cases (tf.tf_trapno == irq_offset + irq_kbd)) [
        | inl g ↦ rw g (keyboard_irq-Sane s h)
        | inr g ↦ rw g (elim (Bool-cases (tf.tf_trapno == irq_offset + irq_ide)) [
          | inl i ↦ rw i h
          | inr i ↦ rw i tt
        ])
      ])
    ])
  ]

  -- Let the printing and the user's handlers leave the processes alone, and an interrupt during
  -- a `hlt` in a sane kernel end in a sane kernel, whether it comes back or leaves for a
  -- process. From a sane kernel (each PCB has its own number; the current process runs, no
  -- other does; the kernel stack and the page directory are its own) every trap that returns or
  -- leaves for a process, whichever its number, ends in a sane kernel.
  pub trap-IsSane : (s : Kernel) → IsSane s → Ensures (λ _ t. IsSane t) (trap env dev s)
  unfolding trap
  trap-IsSane s h =
      assert-Sane (not s.interrupts) (do p ← pcb_at s.esp0; handle env dev s.esp0 p.tf) s
        (pcb_at-Sane s.esp0 (λ p. handle env dev s.esp0 p.tf) s
          (λ _. handle-Sane s.esp0 (s.user_pcbs s.esp0).tf s h))
