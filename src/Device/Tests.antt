-- ===== src/Device/Tests.antt =====
-- Devices on which the theorems on the drivers are used.
use nju_oslab.Prelude.{
  zero, suc, ◌<◌, ◌≤◌, inr, ◌||◌, ℕ, ◌+◌, ◌≡◌, refl, [], ◌∷◌, get_or, ltb, ◌==◌, if◌then◌else◌,
  some, ok, Returns, arith,
}
use nju_oslab.Device.Ports.{Ports, com1, serial_printc}
use nju_oslab.Device.Ports.Polls.{serial_printc-IsIdleAfter}
use nju_oslab.Device.Ide.{ide_read}
use nju_oslab.Device.Ide.Status.{IsDrdy, IsFailed, IsWait}
use nju_oslab.Device.Ide.Sectors.{moment, IsServed, HasRead, HasSent, ide_read-HasRead}
use nju_oslab.Device.Printk.{convert, vfprintf}
use nju_oslab.Device.Printk.Digits.{spelled, convert-spelled}
use nju_oslab.Device.Printk.Count.{line, Grown, Terminates, vfprintf-Grown}

-- A serial line that is busy at its first two polls, and a disk that is busy at the polls 0 and 3 and
-- has an error at the poll 4.
abbrev machine : Ports
machine = record {
  answer = λ p t.
      if p == com1 + 5
      then (if ltb t 2 then 0 else 0x20)
      else if (t == 0) || (t == 3)
      then 0x80
      else if t == 4
      then 0x51
      else 0x50;
  reads = 0;
  written = [];
  sent_at = [];
  sector = λ _ r b j. r + b + j;
  blocks = 0;
  stored = [];
}

serial_printc-IsIdleAfter_example :
    serial_printc 5 65 machine
    ≡ ok 1 (record machine { reads = 3; written = (com1, 65) ∷ []; sent_at = 3 ∷ [] })
serial_printc-IsIdleAfter_example =
    serial_printc-IsIdleAfter 5 2 65 machine (omega arith)
      record { busy = λ t p. ground arith; idle = omega arith }

-- The first wait, and the waits of two sectors, the second of which fails.
machine-IsWait : IsWait (machine.answer 0x1F7) 2 0 1
machine-IsWait = record { in_time = omega arith; busy = busy; ready = (refl, refl) }
  where
    busy : (j : ℕ) → j < 1 → ¬ IsDrdy (machine.answer 0x1F7 (0 + j))
    busy zero p h = omega (arith, h)
    busy (suc j) p h = omega (arith, p)

machine-IsServed : IsServed (machine.answer 0x1F7) 2 (λ i. i) 2 2 1
unfolding moment
machine-IsServed = record {
  most = omega arith;
  waits = waits;
  sound = sound;
  fails = λ p. inr refl;
}
  where
    busy : (j : ℕ) → j < 1 → ¬ IsDrdy (machine.answer 0x1F7 (3 + j))
    busy zero p h = omega (arith, h)
    busy (suc j) p h = omega (arith, p)

    waits : (i : ℕ) → i < 2 → i ≤ 1 → IsWait (machine.answer 0x1F7) 2 (moment (λ i. i) 2 i) i
    waits zero p q = record {
      in_time = omega arith;
      busy = λ j r. absurd (omega arith);
      ready = (refl, refl);
    }
    waits (suc zero) p q = record { in_time = omega arith; busy = busy; ready = (refl, refl) }
    waits (suc (suc i)) p q = absurd (omega arith)

    sound : (i : ℕ) → i < 1 → ¬ IsFailed (machine.answer 0x1F7 (moment (λ i. i) 2 i + i))
    sound zero p h = omega (arith, h)
    sound (suc i) p h = omega (arith, p)

ide_read-HasRead_example :
    Returns
      (λ r t.
        HasSent machine t 2 0x12345 2 0x20
        × HasRead machine t.written (λ i. i) 2 (λ _. 7) 0 2 1 r t)
      (ide_read 2 0x12345 (λ _. 7) 2 machine)
ide_read-HasRead_example =
    ide_read-HasRead 2 1 0x12345 2 1 (λ i. i) (λ _. 7) machine (omega arith) (omega arith)
      machine-IsWait machine-IsServed

convert-spelled_example : spelled 16 (some 0) (convert 0xBEEF 16) ≡ some 0xBEEF
convert-spelled_example = convert-spelled 0xBEEF 16 (omega arith) (omega arith) (omega arith)

-- "a%d"
abbrev format : ℕ → ℕ
format i = get_or (b'a' ∷ b'%' ∷ b'd' ∷ []) i 0

format-Terminates : Terminates (λ _. 42) (λ _. []) format 0 2
format-Terminates =
    Terminates.plain (omega arith) (omega arith)
      (Terminates.percent refl (omega arith) (Terminates.ended refl))

vfprintf-Grown_example : Returns (Grown 0 []) (vfprintf line line (λ _. 42) (λ _. []) 3 format [])
vfprintf-Grown_example =
    vfprintf-Grown (λ _. 42) (λ _. []) format 3 2 [] (omega arith) format-Terminates
