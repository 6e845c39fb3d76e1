-- ===== src/Device/Ports/Polls.antt =====
-- A character goes out once the serial line is idle.
use nju_oslab.Prelude.{
  ℕ, zero, suc, ◌+◌, ◌/◌, ◌%◌, ◌<◌, ◌≡◌, ◌≢◌, refl, ap, ◌∙◌, ◌∷◌, eq→==, ne→==, ok, arith,
}
use nju_oslab.Device.Ports.{Ports, inb, outb, com1, is_serial_idle, wait_idle, serial_printc}

-- The line is busy at the next k polls, and idle at the one after them.
pub record IsIdleAfter (s : Ports) (k : ℕ) : Type 0 where
  pub busy : (t : ℕ) → t < k → s.answer (com1 + 5) (s.reads + t) / 32 % 2 ≡ 0
  pub idle : s.answer (com1 + 5) (s.reads + k) / 32 % 2 ≢ 0

pub wait_idle-IsIdleAfter :
    (polls k : ℕ) (s : Ports)
    → k < polls
    → IsIdleAfter s k
    → wait_idle polls s ≡ ok tt (record s { reads = s.reads + k + 1 })
unfolding wait_idle is_serial_idle inb
wait_idle-IsIdleAfter zero k s h i = absurd (omega arith)
wait_idle-IsIdleAfter (suc polls) zero s h i =
    let e : s.answer (com1 + 5) s.reads / 32 % 2 ≢ 0 =
      λ z. i.idle (ap (λ t. s.answer (com1 + 5) t / 32 % 2) (omega arith) ∙ z) in
    rw (ne→== _ 0 e) (ap (λ (n : ℕ). ok tt (record s { reads = n })) (omega arith))
wait_idle-IsIdleAfter (suc polls) (suc k) s h i =
    let e : s.answer (com1 + 5) s.reads / 32 % 2 ≡ 0 =
      ap (λ t. s.answer (com1 + 5) t / 32 % 2) (omega arith) ∙ i.busy 0 (omega arith) in
    rw (eq→== _ 0 e) (
      wait_idle-IsIdleAfter polls k (record s { reads = s.reads + 1 }) (omega arith)
        record {
          busy = λ t p.
              ap (λ t. s.answer (com1 + 5) t / 32 % 2) (omega arith) ∙ i.busy (suc t) (omega arith);
          idle = λ z. i.idle (ap (λ t. s.answer (com1 + 5) t / 32 % 2) (omega arith) ∙ z);
        }
      ∙ ap (λ (n : ℕ). ok tt (record s { reads = n })) (omega arith))

-- When the serial line is busy at the next k polls and idle at the one after them, and more
-- than k polls are allowed, `serial_printc` makes k + 1 polls, sends the one byte when they
-- have been made and not before, and returns 1; nothing else changes.
pub serial_printc-IsIdleAfter :
    (polls k c : ℕ) (s : Ports)
    → k < polls
    → IsIdleAfter s k
    → serial_printc polls c s
      ≡ ok 1 (record s {
        reads = s.reads + k + 1;
        written = (com1, c % 256) ∷ s.written;
        sent_at = (s.reads + k + 1) ∷ s.sent_at;
      })
unfolding serial_printc outb
serial_printc-IsIdleAfter polls k c s h i = rw (wait_idle-IsIdleAfter polls k s h i) refl
