-- ===== src/Kernel/Syscall/Fair.antt =====
-- Time slices: the timer ends each by `sys_sleep(1)`, and every process that is ready has its turn.
use nju_oslab.Prelude.{
  ℕ, zero, suc, ◌+◌, ◌-◌, ◌%◌, ◌≤◌, ◌<◌, ◌≡◌, ◌≢◌, refl, ap, ◌∙◌, sym, subst, true, Bool-cases, inl,
  inr, ◌⊎◌, lt→ltb, ◌==◌, ==→eq, ==→ne, ne→==, eq→==, ok, update, add32, Returns, returns, arith,
  Returns-Ensures, Returns-mono,
}
use nju_oslab.Kernel.State.{Kernel, Pcb, sleeping, exec, upcb_num, pcb_put, get_pid}
use nju_oslab.Kernel.Sched.Robin.{
  is_ready, is_skipped, pcb_at-ok, turn, IsNext, running_now, ticked, sched_process-IsNext,
}
use nju_oslab.Kernel.Sched.Sane.{IsSane}
use nju_oslab.Kernel.Syscall.{sys_sleep}
use nju_oslab.Kernel.Syscall.Sane.{sys_sleep-Sane}

-- The turns from the current process c to p.
abbrev pub distance : ℕ → ℕ → ℕ
distance p c = (p + upcb_num - c) % upcb_num

-- What a time slice may do from s to t: the current process goes on, and at the next tick p is ready
-- and the other processes are ready or passed over.
pub record IsSlice (p : ℕ) (s t : Kernel) : Type 0 where
  pub sane : IsSane t
  pub same : t.curr_pid ≡ s.curr_pid
  pub waiting : is_ready (add32 t.sys_runned_time 1) (t.user_pcbs p) ≡ true
  pub others :
      (i : ℕ)
      → i < upcb_num
      → i ≢ t.curr_pid
      → (is_ready (add32 t.sys_runned_time 1) (t.user_pcbs i) ≡ true)
        ⊎ (is_skipped (add32 t.sys_runned_time 1) (t.user_pcbs i) ≡ true)

-- After n slices at most, whatever they do, p is the current process.
pub RunsWithin : (fuel p n : ℕ) → Kernel → Type 0
RunsWithin fuel p zero s = s.curr_pid ≡ p
RunsWithin fuel p (suc n) s =
    (s.curr_pid ≡ p)
    ⊎ ((t : Kernel) → IsSlice p s t → Returns (λ _ u. RunsWithin fuel p n u) (sys_sleep fuel 1 t))

module _ (now c : ℕ) (pcbs : ℕ → Pcb) where
  -- The first turn from m on that is ready.
  first_ready :
      (k m : ℕ)
      → ((j : ℕ)
          → j < k + m
          → (is_ready now (pcbs (turn c j)) ≡ true) ⊎ (is_skipped now (pcbs (turn c j)) ≡ true))
      → is_ready now (pcbs (turn c (k + m))) ≡ true
      → ((j : ℕ) → j < m → is_skipped now (pcbs (turn c j)) ≡ true)
      → (d : ℕ) × ((d ≤ k + m)
          × ((is_ready now (pcbs (turn c d)) ≡ true)
              × ((j : ℕ) → j < d → is_skipped now (pcbs (turn c j)) ≡ true)))
  first_ready zero m h r before = (
    m,
    (omega arith, (subst (λ x. is_ready now (pcbs (turn c x)) ≡ true) (omega arith) r, before)),
  )
  first_ready (suc k) m h r before = elim (h m (omega arith)) [
    | inl here ↦ (m, (omega arith, (here, before)))
    | inr passed ↦
        let (d, (le, (ready, rest))) =
          first_ready k (suc m) (λ j lt. h j (omega (arith, lt)))
            (subst (λ x. is_ready now (pcbs (turn c x)) ≡ true) (omega arith) r)
            (λ j lt. elim (Bool-cases (j == m)) [
              | inl e ↦
                  subst (λ x. is_skipped now (pcbs (turn c x)) ≡ true) (sym (==→eq j m e)) passed
              | inr e ↦ before j (omega (arith, lt, ==→ne j m e))
            ]) in
        (d, (omega (arith, le), (ready, rest)))
  ]

-- The current process asleep for a tick.
abbrev slept : Kernel → Kernel
slept t = record t {
  user_pcbs = update t.user_pcbs t.curr_pid (record (t.user_pcbs t.curr_pid) {
    status = sleeping;
    wakeup_time = add32 t.sys_runned_time 1;
  });
}

sleep-IsNext :
    (fuel d : ℕ) (t : Kernel)
    → t.curr_pid < upcb_num
    → IsNext (add32 t.sys_runned_time 1) t.curr_pid d (slept t).user_pcbs
    → sys_sleep (suc fuel) 1 t
      ≡ ok (exec (turn t.curr_pid d)) (running_now (ticked (slept t)) (turn t.curr_pid d))
unfolding sys_sleep get_pid pcb_put
sleep-IsNext fuel d t lt next =
    rw (pcb_at-ok t.curr_pid t lt, lt→ltb t.curr_pid upcb_num lt)
      (sched_process-IsNext fuel d (slept t) lt (rw (eq→== t.curr_pid t.curr_pid refl) refl) next)

module _ (fuel p : ℕ) (lt : p < upcb_num) where
  -- The slice goes to the turn d, at p or before it.
  slice-turn :
      (t : Kernel) (d : ℕ)
      → t.curr_pid ≢ p
      → IsSane t
      → d ≤ distance p t.curr_pid - 1
      → is_ready (add32 t.sys_runned_time 1) (t.user_pcbs (turn t.curr_pid d)) ≡ true
      → ((j : ℕ)
          → j < d
          → is_skipped (add32 t.sys_runned_time 1) (t.user_pcbs (turn t.curr_pid j)) ≡ true)
      → Returns (λ _ u. distance p u.curr_pid < distance p t.curr_pid) (sys_sleep (suc fuel) 1 t)
  slice-turn t d ne sane near ready before =
      let c : ℕ = t.curr_pid in
      let kept : (j : ℕ) → j ≤ d → (slept t).user_pcbs (turn c j) ≡ t.user_pcbs (turn c j) = λ j l.
        rw (ne→== c (turn c j) (λ z. absurd (omega (arith, z, l, near, ne, lt, sane.current))))
          refl in
      let next : IsNext (add32 t.sys_runned_time 1) c d (slept t).user_pcbs = record {
        in_round = omega (arith, near);
        other = λ z. absurd (omega (arith, z, near, ne, lt, sane.current));
        ready = rw (kept d (omega arith)) ready;
        skipped = λ m l. rw (kept m (omega (arith, l))) (before m l);
      } in
      let who : ((slept t).user_pcbs (turn c d)).pid ≡ turn c d =
        ap (λ (q : Pcb). q.pid) (kept d (omega arith)) ∙ sane.pids (turn c d) (omega arith) in
      rw (sleep-IsNext fuel d t sane.current next)
        (returns (omega (arith, who, near, ne, lt, sane.current)))

  -- The next slice goes to a process that is nearer to p.
  slice-nearer :
      (t : Kernel)
      → t.curr_pid ≢ p
      → IsSlice p t t
      → Returns
          (λ _ u. IsSane u × (distance p u.curr_pid < distance p t.curr_pid))
          (sys_sleep (suc fuel) 1 t)
  slice-nearer t ne h =
      let c : ℕ = t.curr_pid in
      let last : ℕ = distance p c - 1 in
      let reached : turn c (last + 0) ≡ p = omega (arith, ne, lt, h.sane.current) in
      let (d, (le, (ready, before))) =
        first_ready (add32 t.sys_runned_time 1) c t.user_pcbs last 0
          (λ j l. h.others (turn c j) (omega arith) (omega (arith, l, ne, lt, h.sane.current)))
          (rw reached h.waiting) (λ j l. absurd (omega (arith, l))) in
      Returns-mono
        (Returns-Ensures (slice-turn t d ne h.sane (omega (arith, le)) ready before)
          (sys_sleep-Sane (suc fuel) 1 t h.sane))
        (λ _ u q. (q.1, q.0))

  -- Fairness of the scheduler, which the timer enters by `sys_sleep(1)` at the end of each time
  -- slice. From a sane state, and with a process p of the 64 whose turn is at most n steps
  -- after that of the current process: after n time slices at most p has been the current
  -- process, whatever the slices do, as long as each keeps the state sane and the current
  -- process and, at its end, p is ready at the next tick and each other process is ready or
  -- passed over (so that none waits for a semaphore). One round of fuel is enough for each
  -- call.
  pub sys_sleep-RunsWithin :
      (n : ℕ) (s : Kernel) → IsSane s → distance p s.curr_pid ≤ n → RunsWithin (suc fuel) p n s
  unfolding RunsWithin
  sys_sleep-RunsWithin zero s h le = omega (arith, h.current, le, lt)
  sys_sleep-RunsWithin (suc n) s h le = elim (Bool-cases (s.curr_pid == p)) [
    | inl e ↦ inl (==→eq s.curr_pid p e)
    | inr e ↦ inr (λ t slice.
        Returns-mono
          (slice-nearer t (λ z. ==→ne s.curr_pid p e (sym slice.same ∙ z))
            record {
              sane = slice.sane;
              same = refl;
              waiting = slice.waiting;
              others = slice.others;
            })
          (λ _ u q.
            sys_sleep-RunsWithin n u q.0 (omega (arith, q.1, ap (distance p) slice.same, le))))
  ]
