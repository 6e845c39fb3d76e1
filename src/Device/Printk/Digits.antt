-- ===== src/Device/Printk/Digits.antt =====
-- The digits of `convert` spell its number.
use native.Mathlib.Nat.{div-add-mod', mod-lt, pow-suc, mul-le-mul_left}
use nju_oslab.Prelude.{
  ℕ, zero, suc, ◌+◌, ◌-◌, ◌*◌, ◌/◌, ◌%◌, ◌^◌, ◌≤◌, ◌<◌, ◌≡◌, refl, ap, ◌∙◌, sym, Bool-cases, inl,
  inr, List, [], ◌∷◌, Option, none, some, leb, lt→ltb, ◌&&◌, ltb, ◌==◌, ==→eq, ==→ne, if◌then◌else◌,
  arith,
}
use nju_oslab.Device.Printk.{representation, convert_from, convert}

-- The digit that a character stands for: '0' to '9', and 'A' to 'F' for ten to fifteen.
abbrev pub digit : ℕ → Option ℕ
digit c =
    if leb 48 c && ltb c 58
    then some (c - 48)
    else if leb 65 c && ltb c 71
    then some (c - 55)
    else none

-- A number with one more digit, which is below the base.
abbrev pub with_digit : ℕ → Option ℕ → Option ℕ → Option ℕ
with_digit base (some v) (some d) = if ltb d base then some (v * base + d) else none
with_digit base (some v) none = none
with_digit base none d = none

-- The number that a text spells behind another.
abbrev pub spelled : ℕ → Option ℕ → List ℕ → Option ℕ
spelled base v [] = v
spelled base v (c ∷ text) = spelled base (with_digit base v (digit c)) text

digit-representation : (d : ℕ) → d < 16 → digit (representation d) ≡ some d
unfolding representation
digit-representation d h = elim (Bool-cases (ltb d 10)) [
  | inl e ↦ rw e (ground (arith, e))
  | inr e ↦ rw e (ground (arith, e, h))
]

half_quotient : (num base : ℕ) → 2 ≤ base → num / base * 2 ≤ num
half_quotient num base h = omega (arith, div-add-mod' num base, mul-le-mul_left (num / base) h)

-- The round that writes a digit, the last one or not.
spelled-digit :
    (num base : ℕ) (text : List ℕ) (q : ℕ)
    → 2 ≤ base
    → base ≤ 16
    → num / base ≡ q
    → spelled base (some q) (representation (num % base) ∷ text) ≡ spelled base (some num) text
spelled-digit num base text q h k e =
    let below : num % base < base = mod-lt num {m = base} (omega (arith, h)) in
    rw (digit-representation (num % base) (omega (arith, below, k)), lt→ltb (num % base) base below)
      (ap (λ v. spelled base (some v) text)
        (ap (λ t. t * base + num % base) (sym e) ∙ div-add-mod' num base))

convert_from-spelled :
    (room num base : ℕ) (text : List ℕ)
    → 2 ≤ base
    → base ≤ 16
    → num < 2 ^ suc room
    → spelled base (some 0) (convert_from (suc room) num base text) ≡ spelled base (some num) text
unfolding convert_from
convert_from-spelled zero num base text h k p = elim (Bool-cases (num / base == 0)) [
  | inl e ↦ rw e (spelled-digit num base text 0 h k (==→eq _ 0 e))
  | inr e ↦ absurd (omega (arith, ==→ne _ 0 e, half_quotient num base h))
]
convert_from-spelled (suc room) num base text h k p = elim (Bool-cases (num / base == 0)) [
  | inl e ↦ rw e (spelled-digit num base text 0 h k (==→eq _ 0 e))
  | inr e ↦ rw e (
      convert_from-spelled room (num / base) base (representation (num % base) ∷ text) h k
        (omega (arith, half_quotient num base h, pow-suc 2 (suc room)))
      ∙ spelled-digit num base text (num / base) h k refl)
]

-- In any base from 2 to 16 the text that `convert` makes of a number below 2 ^ 32 spells that
-- number: its characters are '0' to '9' and 'A' to 'F' only, each a digit below the base, and
-- read from left to right they give the number.
pub convert-spelled :
    (num base : ℕ)
    → num < 2 ^ 32
    → 2 ≤ base
    → base ≤ 16
    → spelled base (some 0) (convert num base) ≡ some num
unfolding convert
convert-spelled num base p h k = convert_from-spelled 48 num base [] h k (omega arith)
