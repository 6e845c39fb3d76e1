-- ===== src/Device/Printk.antt =====
-- kernel/printk.c: formatted output. `ctl` is the bytes of the format, `args` the words of the
-- va_list, and `string_at` the bytes up to the NUL behind a pointer.
pub mod Digits
pub mod Count
use nju_oslab.Prelude.{
  ℕ, zero, suc, ◌+◌, ◌/◌, ◌%◌, ◌^◌, Bool, true, false, List, [], ◌∷◌, ltb, leb, ◌==◌, if◌then◌else◌,
  ok, hang, M, pure, ◌>>=◌, ◌>>◌, add32, sub32,
}
use nju_oslab.Device.Ports.{PortsM, serial_printc}

-- `Representation[d]`
unfoldable pub representation : ℕ → ℕ
representation d = if ltb d 10 then 48 + d else 55 + d

-- The loop of `convert`, with the room left in the buffer and what stands behind `ptr`.
unfoldable pub convert_from : ℕ → ℕ → ℕ → List ℕ → List ℕ
convert_from zero num base text = text
convert_from (suc room) num base text =
    let text' = representation (num % base) ∷ text in
    let rest = convert_from room (num / base) base text' in if num / base == 0 then text' else rest

unfoldable pub convert : ℕ → ℕ → List ℕ
convert num base = convert_from 49 num base []

-- Over the character driver: `serial` is the `serial_printc` that `puts` calls, `printer` the
-- argument of `vfprintf`.
module _ {S : Type 0} (serial : ℕ → M S ℕ) where
  unfoldable pub puts_from : List ℕ → ℕ → M S ℕ
  puts_from [] count = pure count
  puts_from (c ∷ s) count = do k ← serial c; puts_from s (add32 count k)

  unfoldable pub puts : List ℕ → M S ℕ
  puts s = puts_from s 0

  module _ (printer : ℕ → M S ℕ) (args : ℕ → ℕ) (string_at : ℕ → List ℕ) where
    -- `case 'd'`, at an argument that is not negative and at one that is.
    unfoldable pub print_int : ℕ → ℕ → M S ℕ
    print_int i count =
        if leb (2 ^ 31) i
        then (do _ ← printer 45; k ← puts (convert (sub32 0 i) 10); pure (add32 (add32 count 1) k))
        else (do k ← puts (convert i 10); pure (add32 count k))

    -- The `switch`: the next argument and the count after it.
    unfoldable pub directive : ℕ → ℕ → ℕ → M S (ℕ × ℕ)
    directive c a count =
        if c == 100
        then (do k ← print_int (args a) count; pure (a + 1, k))
        else if c == 120
        then (do k ← puts (convert (args a) 16); pure (a + 1, add32 count k))
        else if c == 99
        then (do k ← printer (args a % 256); pure (a + 1, add32 count k))
        else if c == 115
        then (do k ← puts (string_at (args a)); pure (a + 1, add32 count k))
        else pure (a, count)

    -- The loop over the format, with the rounds left. After a directive it goes on behind the byte
    -- that followed the '%', whatever that was.
    unfoldable pub vfprintf_from : (ctl : ℕ → ℕ) → ℕ → ℕ → ℕ → ℕ → M S ℕ
    vfprintf_from ctl zero i a count s = hang
    vfprintf_from ctl (suc n) i a count s =
        let rest = vfprintf_from ctl n in
        (if ctl i == 0
            then pure count
            else if ctl i == 37
            then (do r ← directive (ctl (i + 1)) a count; rest (i + 2) r.0 r.1)
            else (do k ← printer (ctl i); rest (i + 1) a (add32 count k)))
          s

    unfoldable pub vfprintf : ℕ → (ℕ → ℕ) → M S ℕ
    vfprintf fuel ctl = vfprintf_from ctl fuel 0 0 0

unfoldable pub printk : ℕ → ℕ → (args : ℕ → ℕ) (string_at : ℕ → List ℕ) (ctl : ℕ → ℕ) → PortsM ℕ
printk fuel polls args string_at ctl = do
  _ ← vfprintf (serial_printc polls) (serial_printc polls) args string_at fuel ctl
  pure 0
