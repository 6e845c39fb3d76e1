-- ===== src/Prelude/Bits.antt =====
-- Single bits of a word, and `|` with one bit.
use Prim.Native.Nat.{
  ℕ, zero, suc, ◌+◌, ◌-◌, ◌*◌, ◌/◌, ◌%◌, ◌^◌, ◌≤◌, ◌<◌, max, bit_or, digits, bit_or-bitwise,
}
use mathlib.Core.Path.{◌≡◌, refl, ap, ◌∙◌}
use native.Mathlib.Nat.{pow-suc}
use native.Mathlib.Omega.{arith}
use nju_oslab.Prelude.Tests.{◌==◌, if◌then◌else◌}

-- `(w >> k) & 1`
unfoldable pub bit : ℕ → ℕ → ℕ
bit w zero = w % 2
bit w (suc k) = bit (w / 2) k

abbrev or_digits : ℕ → ℕ → ℕ → ℕ
or_digits n a b = digits (λ b. b) max n a b

or_digits_fuel : (n m a b : ℕ) → a ≤ n → a ≤ m → or_digits n a b ≡ or_digits m a b
or_digits_fuel zero zero a b p q = refl
or_digits_fuel zero (suc m) zero b p q = refl
or_digits_fuel zero (suc m) (suc a) b p q = absurd (omega arith)
or_digits_fuel (suc n) zero zero b p q = refl
or_digits_fuel (suc n) zero (suc a) b p q = absurd (omega arith)
or_digits_fuel (suc n) (suc m) zero b p q = refl
or_digits_fuel (suc n) (suc m) (suc a) b p q =
    omega (arith, or_digits_fuel n m (suc a / 2) (b / 2) (omega arith) (omega arith))

zero-bit_or : (b : ℕ) → bit_or 0 b ≡ b
zero-bit_or b = bit_or-bitwise 0 b

bit_or_step : (a b : ℕ) → bit_or a b ≡ bit_or (a / 2) (b / 2) * 2 + max (a % 2) (b % 2)
bit_or_step zero b = omega (arith, zero-bit_or b, zero-bit_or (b / 2))
bit_or_step (suc a) b = omega (
  arith,
  bit_or-bitwise (suc a) b,
  bit_or-bitwise (suc a / 2) (b / 2),
  or_digits_fuel a (suc a / 2) (suc a / 2) (b / 2) (omega arith) (omega arith),
)

bit_or-zero_fuel : (n a : ℕ) → a ≤ n → bit_or a 0 ≡ a
bit_or-zero_fuel n zero h = refl
bit_or-zero_fuel zero (suc a) h = absurd (omega arith)
bit_or-zero_fuel (suc n) (suc a) h =
    omega (arith, bit_or_step (suc a) 0, bit_or-zero_fuel n (suc a / 2) (omega arith))

pub bit_or-zero : (a : ℕ) → bit_or a 0 ≡ a
bit_or-zero a = bit_or-zero_fuel a a (omega arith)

-- `w | (1 << k)` turns on bit k and keeps the others.
half-bit_or : (k w : ℕ) → bit_or w (2 ^ suc k) / 2 ≡ bit_or (w / 2) (2 ^ k)
half-bit_or k w =
    let e : 2 ^ suc k / 2 ≡ 2 ^ k = omega (arith, pow-suc 2 k) in
    let s : bit_or w (2 ^ suc k)
        ≡ bit_or (w / 2) (2 ^ suc k / 2) * 2 + max (w % 2) (2 ^ suc k % 2) =
      bit_or_step w (2 ^ suc k) in
    let t : bit_or (w / 2) (2 ^ suc k / 2) ≡ bit_or (w / 2) (2 ^ k) = ap (bit_or (w / 2)) e in
    omega (arith, pow-suc 2 k, s, t)

half-bit_or_one : (w : ℕ) → bit_or w 1 / 2 ≡ w / 2
half-bit_or_one w = omega (arith, bit_or_step w 1, bit_or-zero (w / 2))

pub bit-bit_or : (k w j : ℕ) → bit (bit_or w (2 ^ k)) j ≡ (if k == j then 1 else bit w j)
unfolding bit
bit-bit_or zero w zero = omega (arith, bit_or_step w 1)
bit-bit_or zero w (suc j) = ground (arith, ap (λ v. bit v j) (half-bit_or_one w))
bit-bit_or (suc k) w zero = ground (arith, bit_or_step w (2 ^ suc k), pow-suc 2 k)
bit-bit_or (suc k) w (suc j) =
    ground (arith, ap (λ v. bit v j) (half-bit_or k w), bit-bit_or k (w / 2) j)

-- Below 2 ^ n the result stays below.
pub bit_or-lt : (n k w : ℕ) → k < n → w < 2 ^ n → bit_or w (2 ^ k) < 2 ^ n
bit_or-lt zero k w p q = elim p [ ]
bit_or-lt (suc n) zero w p q = omega (arith, bit_or_step w 1, bit_or-zero (w / 2), pow-suc 2 n)
bit_or-lt (suc n) (suc k) w p q = omega (
  arith,
  bit_or_step w (2 ^ suc k),
  half-bit_or k w,
  pow-suc 2 n,
  bit_or-lt n k (w / 2) (omega arith) (omega (arith, pow-suc 2 n)),
)

-- The complement of a word of n bits has each of them turned over.
pub bit-complement : (n k w : ℕ) → k < n → w < 2 ^ n → bit (2 ^ n - 1 - w) k + bit w k ≡ 1
unfolding bit
bit-complement zero k w p q = elim p [ ]
bit-complement (suc n) zero w p q = omega (arith, pow-suc 2 n)
bit-complement (suc n) (suc k) w p q =
    let half : (2 ^ suc n - 1 - w) / 2 ≡ 2 ^ n - 1 - w / 2 = omega (arith, pow-suc 2 n) in
    ground (
      arith,
      ap (λ v. bit v k) half,
      bit-complement n k (w / 2) (omega arith) (omega (arith, pow-suc 2 n)),
    )

pub bit-le : (w k : ℕ) → bit w k ≤ 1
unfolding bit
bit-le w zero = omega arith
bit-le w (suc k) = bit-le (w / 2) k

pub zero-bit : (k : ℕ) → bit 0 k ≡ 0
unfolding bit
zero-bit zero = refl
zero-bit (suc k) = zero-bit k

-- A field of k bits under a number that leaves them free: `|` is a sum.
pub bit_or-fields : (k q r : ℕ) → r < 2 ^ k → bit_or (q * 2 ^ k) r ≡ q * 2 ^ k + r
bit_or-fields zero q r h =
    let e : r ≡ 0 = omega arith in rw e (bit_or-zero (q * 2 ^ 0) ∙ omega arith)
bit_or-fields (suc k) q r h =
    let e : q * 2 ^ suc k ≡ q * 2 ^ k * 2 = omega (arith, ap (λ (t : ℕ). q * t) (pow-suc 2 k)) in
    let f : q * 2 ^ suc k / 2 ≡ q * 2 ^ k = omega (arith, e) in
    let g : bit_or (q * 2 ^ suc k / 2) (r / 2) ≡ bit_or (q * 2 ^ k) (r / 2) =
      ap (λ v. bit_or v (r / 2)) f in
    omega (
      arith,
      e,
      g,
      bit_or_step (q * 2 ^ suc k) r,
      bit_or-fields k q (r / 2) (omega (arith, pow-suc 2 k)),
    )
