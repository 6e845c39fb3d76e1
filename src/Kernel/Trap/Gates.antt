-- ===== src/Kernel/Trap/Gates.antt =====
-- Which gates a user process may go through.
use nju_oslab.Prelude.{
  ℕ, zero, suc, ◌+◌, ◌<◌, ◌≡◌, refl, ◌*◌, ◌^◌, ap, ◌∙◌, false, ◌&&◌, ◌||◌, Bool-cases, inl, inr,
  ltb, leb, ◌==◌, ==→eq, if◌then◌else◌, update, arith,
}
use nju_oslab.Mmu.{Gatedesc, setgate}
use nju_oslab.Kernel.Trap.{Tables, set_gates, trap_init, gd_kt, t_brkpt, t_syscall}

set_gates-gate :
    (trap_handlers : ℕ → ℕ) (n i : ℕ) (idt : ℕ → Gatedesc) (k : ℕ)
    → set_gates trap_handlers n i idt k
      ≡ (if leb i k && ltb k (i + n) then setgate false gd_kt (trap_handlers k) 0 else idt k)
unfolding set_gates
set_gates-gate trap_handlers zero i idt k = ground arith
set_gates-gate trap_handlers (suc n) i idt k =
    set_gates-gate trap_handlers n (i + 1) (update idt i (setgate false gd_kt (trap_handlers i) 0))
      k
    ∙ elim (Bool-cases (i == k)) [
      | inl e ↦
          rw e (ground (arith, e, ap (λ j. setgate false gd_kt (trap_handlers j) 0) (==→eq i k e)))
      | inr e ↦ rw e (ground (arith, e))
    ]

-- The privilege that a gate asks for.
abbrev pub gate_privilege : ℕ → ℕ
gate_privilege k = if (k == t_brkpt) || (k == t_syscall) then 3 else 0

-- What the processor makes of a gate: present, of the type of a 32-bit interrupt gate (so that
-- interrupts are off behind it), with the address of the handler, the code segment and the least
-- privilege of the caller.
pub record IsInterruptGate (g : Gatedesc) (handler segment privilege : ℕ) : Type 0 where
  pub present : g.gd_p ≡ 1
  pub system : g.gd_s ≡ 0
  pub interrupt : g.gd_type ≡ 14
  pub segment_is : g.gd_sel ≡ segment
  pub privilege_is : g.gd_dpl ≡ privilege
  pub low : g.gd_off_15_0 < 2 ^ 16
  pub offset : g.gd_off_15_0 + g.gd_off_31_16 * 2 ^ 16 ≡ handler
  pub reserved : (g.gd_args ≡ 0) × (g.gd_rsv1 ≡ 0)

setgate-IsInterruptGate :
    (handler dpl : ℕ) → IsInterruptGate (setgate false gd_kt handler dpl) handler 8 dpl
unfolding setgate
setgate-IsInterruptGate handler dpl = record {
  present = refl;
  system = refl;
  interrupt = refl;
  segment_is = refl;
  privilege_is = refl;
  low = omega arith;
  offset = omega arith;
  reserved = (refl, refl);
}

the_gate :
    (trap_handlers : ℕ → ℕ) (pts pts_size : ℕ) (t : Tables) (k : ℕ)
    → k < 256
    → (trap_init trap_handlers pts pts_size t).idt k
      ≡ setgate false gd_kt (trap_handlers k) (gate_privilege k)
unfolding trap_init
the_gate trap_handlers pts pts_size t k h = elim (Bool-cases (t_syscall == k)) [
  | inl e ↦ rw e (ground (arith, ==→eq t_syscall k e))
  | inr e ↦ rw e (elim (Bool-cases (t_brkpt == k)) [
    | inl f ↦ rw f (ground (arith, ==→eq t_brkpt k f))
    | inr f ↦ rw f (set_gates-gate trap_handlers 256 0 t.idt k ∙ ground (arith, e, f))
  ])
]

-- After `trap_init`, each of the 256 gates is present and a 32-bit interrupt gate (a system
-- descriptor of type 14), with the code segment 8 and, over its two halves, the address of its
-- handler. The privilege it asks for is 3 for the breakpoint (3) and for the system call (128),
-- so that the user may take these, and 0 for every other.
pub trap_init-IsInterruptGate :
    (trap_handlers : ℕ → ℕ) (pts pts_size : ℕ) (t : Tables) (k : ℕ)
    → k < 256
    → IsInterruptGate
        ((trap_init trap_handlers pts pts_size t).idt k)
        (trap_handlers k)
        8
        (if (k == 3) || (k == 128) then 3 else 0)
trap_init-IsInterruptGate trap_handlers pts pts_size t k h =
    rw (the_gate trap_handlers pts pts_size t k h)
      (setgate-IsInterruptGate (trap_handlers k) (gate_privilege k))
