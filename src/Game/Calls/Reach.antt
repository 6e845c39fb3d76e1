-- ===== src/Game/Calls/Reach.antt =====
-- Each call reaches its handler.
use nju_oslab.Prelude.{
  ℕ, ◌<◌, ◌≡◌, refl, false, lt→ltb, eq→==, ok, panic, fault, hang, Run, and_then, ◌>>=◌, update,
}
use nju_oslab.Kernel.State.{
  Kernel, KernelM, PushRegs, Trapframe, Exit, back, exec, pcb_at, pcb_put, upcb_num,
}
use nju_oslab.Kernel.Syscall.{Env, sysno, dispatch, syscall_handler, cli}
use nju_oslab.Kernel.Trap.{Devices, t_syscall, trap, handle, store_eax}
use nju_oslab.Game.Calls.{enter, resume, int80}

-- The kernel as a handler finds it.
abbrev pub entered : Trapframe → Kernel → Kernel
entered f s =
    let p = s.user_pcbs s.esp0 in
    record s {
      user_pcbs =
          update s.user_pcbs s.esp0
            (record p { tf = record f { tf_trapno = t_syscall; tf_err = 0 } });
      interrupts = false;
    }

-- A handler's answer is stored in the frame of the process, and comes back to it.
abbrev pub answered : ℕ → KernelM Exit → KernelM Exit
answered pid handler = do e ← handler; store_eax pid e

store_eax-resume :
    (pid : ℕ) (e : Exit) (s : Kernel)
    → pid < upcb_num
    → and_then (store_eax pid e s) (resume pid) ≡ store_eax pid e s
unfolding store_eax resume pcb_at pcb_put
store_eax-resume pid (exec i) s lt = refl
store_eax-resume pid (back v) s lt =
    rw (lt→ltb pid upcb_num lt) (rw (lt→ltb pid upcb_num lt) (rw (eq→== pid pid refl) refl))

answered-resume :
    (pid : ℕ) (r : Run Kernel Exit)
    → pid < upcb_num
    → and_then (and_then r (store_eax pid)) (resume pid) ≡ and_then r (store_eax pid)
answered-resume pid (ok e s) lt = store_eax-resume pid e s lt
answered-resume pid panic lt = refl
answered-resume pid fault lt = refl
answered-resume pid hang lt = refl

module _ (env : Env) (dev : Devices) (s : Kernel) (lt : s.esp0 < upcb_num) where
  enter-entered : (f : Trapframe) → enter f s ≡ ok tt (entered f s)
  unfolding enter pcb_at pcb_put
  enter-entered f = rw (lt→ltb s.esp0 upcb_num lt) refl

  trap-entered :
      (f : Trapframe)
      → trap env dev (entered f s)
        ≡ answered s.esp0 (dispatch env (sysno f.tf_regs.reg_eax) f.tf_regs) (entered f s)
  unfolding trap pcb_at handle syscall_handler cli
  trap-entered f = rw (lt→ltb s.esp0 upcb_num lt, eq→== s.esp0 s.esp0 refl) refl

  pub int80-answered :
      (f : Trapframe) (regs : PushRegs)
      → int80 env dev f regs s
        ≡ answered s.esp0
            (dispatch env (sysno regs.reg_eax) regs)
            (entered (record f { tf_regs = regs }) s)
  unfolding int80
  int80-answered f regs =
      let g : Trapframe = record f { tf_regs = regs } in
      rw (enter-entered g, trap-entered g)
        (answered-resume s.esp0 (dispatch env (sysno regs.reg_eax) regs (entered g s)) lt)
