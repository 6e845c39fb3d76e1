-- ===== src/Device/Ide/Status.antt =====
-- The status of the controller, and a wait for it.
use nju_oslab.Prelude.{
  ℕ, zero, suc, ◌+◌, ◌/◌, ◌%◌, ◌<◌, ◌≡◌, refl, ap, ◌∙◌, sym, subst, ◌⊎◌, Bool, true, false, ◌&&◌,
  inl, inr, ==→eq, ==→ne, ◌==◌, Bool-cases, if◌then◌else◌, ok, minus_one, arith,
}
use nju_oslab.Device.Ports.{Ports, inb}
use nju_oslab.Device.Ide.{is_drdy, is_failed, poll_ready, ide_wait_ready}

-- The bits of the status: busy, ready, device fault and error.
abbrev pub IsDrdy : ℕ → Type 0
IsDrdy status = (status / 128 % 2 ≡ 0) × (status / 64 % 2 ≡ 1)

abbrev pub IsFailed : ℕ → Type 0
IsFailed status = (status / 32 % 2 ≡ 1) ⊎ (status % 2 ≡ 1)

-- The statuses that the reads give from the r-th on: busy or not ready at k of them, ready at the one
-- after, which is within the polls.
pub record IsWait (answer : ℕ → ℕ) (polls r k : ℕ) : Type 0 where
  pub in_time : k < polls
  pub busy : (j : ℕ) → j < k → ¬ IsDrdy (answer (r + j))
  pub ready : IsDrdy (answer (r + k))

drdy-yes : (status : ℕ) → IsDrdy status → is_drdy status ≡ true
unfolding is_drdy
drdy-yes status h = ground (arith, h)

drdy-no : (status : ℕ) → ¬ IsDrdy status → is_drdy status ≡ false
unfolding is_drdy
drdy-no status h = elim (Bool-cases (is_drdy status)) [
  | inl e ↦
      absurd
        (h (omega (arith, ==→eq (status / 64 % 4) 1 e), omega (arith, ==→eq (status / 64 % 4) 1 e)))
  | inr e ↦ e
]

pub failed-yes : (status : ℕ) → IsFailed status → is_failed status ≡ true
unfolding is_failed
failed-yes status h = ground (arith, h)

pub failed-no : (status : ℕ) → ¬ IsFailed status → is_failed status ≡ false
unfolding is_failed
failed-no status h = elim (Bool-cases (status / 32 % 2 == 0)) [
  | inl e ↦ elim (Bool-cases (status % 2 == 0)) [
    | inl f ↦ rw (e, f) refl
    | inr f ↦ absurd (h (inr (omega (arith, ==→ne (status % 2) 0 f))))
  ]
  | inr e ↦ absurd (h (inl (omega (arith, ==→ne (status / 32 % 2) 0 e))))
]

abbrev pub polled : ℕ → Ports → Ports
polled k s = record s { reads = s.reads + k + 1 }

poll_ready-IsWait :
    (polls k : ℕ) (s : Ports)
    → IsWait (s.answer 0x1F7) polls s.reads k
    → poll_ready polls s ≡ ok (s.answer 0x1F7 (s.reads + k)) (polled k s)
unfolding poll_ready inb
poll_ready-IsWait zero k s w = absurd (omega (arith, w.in_time))
poll_ready-IsWait (suc polls) zero s w =
    let here : s.reads + 0 ≡ s.reads = omega arith in
    let d : is_drdy (s.answer 0x1F7 s.reads) ≡ true =
      drdy-yes _ (subst (λ r. IsDrdy (s.answer 0x1F7 r)) here w.ready) in
    rw d (
      ap (λ r. ok (s.answer 0x1F7 r) (record s { reads = r + 1 })) {x = s.reads} {y = s.reads + 0}
        (sym here))
poll_ready-IsWait (suc polls) (suc k) s w =
    let d : is_drdy (s.answer 0x1F7 s.reads) ≡ false = drdy-no _ (
      subst (λ r. ¬ IsDrdy (s.answer 0x1F7 r)) {x = s.reads + 0} {y = s.reads} (omega arith)
        (w.busy 0 (omega arith))) in
    let shift : (j : ℕ) → s.reads + suc j ≡ s.reads + 1 + j = λ j. omega arith in
    rw d (
      poll_ready-IsWait polls k (record s { reads = s.reads + 1 })
        record {
          in_time = omega (arith, w.in_time);
          busy = λ j p.
              subst (λ r. ¬ IsDrdy (s.answer 0x1F7 r)) (shift j) (w.busy (suc j) (omega arith));
          ready = subst (λ r. IsDrdy (s.answer 0x1F7 r)) (shift k) w.ready;
        }
      ∙ ap (λ r. ok (s.answer 0x1F7 r) (record s { reads = r + 1 })) {x = s.reads + 1 + k}
          {y = s.reads + suc k} (omega arith))

pub ide_wait_ready-IsWait :
    (polls : ℕ) (check_error : Bool) (k : ℕ) (s : Ports)
    → IsWait (s.answer 0x1F7) polls s.reads k
    → ide_wait_ready polls check_error s
      ≡ ok
          (if check_error && is_failed (s.answer 0x1F7 (s.reads + k)) then minus_one else 0)
          (polled k s)
unfolding ide_wait_ready
ide_wait_ready-IsWait polls check_error k s w = rw (poll_ready-IsWait polls k s w) refl
