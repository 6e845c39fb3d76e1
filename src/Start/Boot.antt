-- ===== src/Start/Boot.antt =====
-- `kernel_init`: the machine as the first program finds it.
use nju_oslab.Prelude.{
  ℕ, zero, suc, ◌+◌, ◌≤◌, ◌<◌, ◌≡◌, refl, ap, ◌∙◌, sym, true, Bool-cases, inl, inr, ◌==◌, eq→==,
  ne→==, ==→eq, ==→ne, ok, ◌>>◌, update, arith, bit_or,
}
use nju_oslab.Kernel.State.{
  Kernel, Pcb, free, running, is_running, exec, upcb_num, not_waiting_sem, pcb_at, pcb_put,
}
use nju_oslab.Kernel.Sched.{free_pcbs, first_frame, pcb_init_p0, pcb_exec}
use nju_oslab.Kernel.Sched.Sane.{IsSane}
use nju_oslab.Start.{program_start, fl_if}

free_pcbs-below : (n i j : ℕ) (pcbs : ℕ → Pcb) → j < i → free_pcbs n i pcbs j ≡ pcbs j
unfolding free_pcbs
free_pcbs-below zero i j pcbs h = refl
free_pcbs-below (suc n) i j pcbs h =
    free_pcbs-below n (i + 1) j _ (omega arith) ∙ rw (ne→== i j (omega arith)) refl

-- The PCB j after `pcb_init_p0` has set it free.
abbrev pub freed : Pcb → ℕ → Pcb
freed p j = record p { status = free; runned_time = 0; pid = j; wait_sem = not_waiting_sem }

free_pcbs-freed :
    (n i j : ℕ) (pcbs : ℕ → Pcb) → i ≤ j → j < i + n → free_pcbs n i pcbs j ≡ freed (pcbs j) j
unfolding free_pcbs
free_pcbs-freed zero i j pcbs p q = absurd (omega arith)
free_pcbs-freed (suc n) i j pcbs p q = elim (Bool-cases (i == j)) [
  | inl e ↦
      free_pcbs-below n (i + 1) j _ (ground (arith, e))
      ∙ rw e (ap (λ k. freed (pcbs k) k) (==→eq i j e))
  | inr e ↦ free_pcbs-freed n (i + 1) j _ (omega (arith, ==→ne i j e)) (omega arith) ∙ rw e refl
]

-- The first process, ready to leave the kernel.
pub record IsBooted (k : Kernel) (entry : ℕ) (t : Kernel) : Type 0 where
  pub sane : IsSane t
  pub frame : (t.user_pcbs 0).tf ≡ first_frame program_start entry (bit_or 2 fl_if)
  pub others_free : (i : ℕ) → 0 < i → i < upcb_num → (t.user_pcbs i).status ≡ free
  pub interruptible : t.interrupts ≡ true
  pub same :
      t ≡ record k { user_pcbs = t.user_pcbs; curr_pid = 0; cr3 = 0; esp0 = 0; interrupts = true }

-- The PCB of the first process.
abbrev pub first_pcb : Pcb → ℕ → Pcb
first_pcb p entry = record (freed p 0) {
  status = running;
  tf = first_frame program_start entry (bit_or 2 fl_if);
}

-- The kernel that the first process leaves.
abbrev pub left : ℕ → Kernel → Kernel
left entry k =
    let p = first_pcb (k.user_pcbs 0) entry in
    record k {
      user_pcbs = update (update (free_pcbs upcb_num 0 k.user_pcbs) 0 p) 0 p;
      curr_pid = 0;
      cr3 = 0;
      esp0 = 0;
      interrupts = true;
    }

pub start_p0-left :
    (entry : ℕ) (k : Kernel)
    → (do pcb_init_p0 0 program_start entry (bit_or 2 fl_if); pcb_exec 0) k
      ≡ ok (exec 0) (left entry k)
unfolding pcb_init_p0 pcb_at pcb_put pcb_exec first_frame
start_p0-left entry k =
    rw (free_pcbs-freed upcb_num 0 0 k.user_pcbs (omega arith) (omega arith)) refl

pub left-IsBooted : (entry : ℕ) (k : Kernel) → IsBooted k entry (left entry k)
left-IsBooted entry k =
    let others : (i : ℕ)
        → i < upcb_num
        → free_pcbs upcb_num 0 k.user_pcbs i ≡ freed (k.user_pcbs i) i =
      λ i p. free_pcbs-freed upcb_num 0 i k.user_pcbs (omega arith) (omega (arith, p)) in
    record {
      sane = record {
        pids = λ i p. elim (Bool-cases (0 == i)) [
          | inl e ↦ rw e (==→eq 0 i e)
          | inr e ↦ rw e (ap (λ (q : Pcb). q.pid) (others i p))
        ];
        current = omega arith;
        one_runs = λ i p. elim (Bool-cases (0 == i)) [
          | inl e ↦ rw (e, eq→== i 0 (sym (==→eq 0 i e))) refl
          | inr e ↦
              rw (e, ne→== i 0 (λ h. ==→ne 0 i e (sym h)))
                (ap (λ (q : Pcb). is_running q.status) (others i p))
        ];
        stack = refl;
        directory = refl;
      };
      frame = refl;
      others_free =
          λ i p q. rw (ne→== 0 i (omega (arith, p))) (ap (λ (x : Pcb). x.status) (others i q));
      interruptible = refl;
      same = refl;
    }
