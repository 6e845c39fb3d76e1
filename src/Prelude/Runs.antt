-- ===== src/Prelude/Runs.antt =====
-- What a run of kernel code over a state of type S ends in: a value with the state reached, a panic
-- (a failed `my_assert`, a `panic`), an access outside an array, or a wait that never ends.
use mathlib.Core.Bool.{Bool}
use nju_oslab.Prelude.Tests.{if◌then◌else◌}

pub data Run (S A : Type 0) : Type 0 where
  ok : A → S → Run S A
  panic : Run S A
  fault : Run S A
  hang : Run S A

abbrev pub M : Type 0 → Type 0 → Type 0
M S A = S → Run S A

module _ {S A : Type 0} where
  abbrev pub pure : A → M S A
  pure = ok

  -- `my_assert(b)` in front of the rest
  abbrev pub and_then : {B : Type 0} → Run S A → (A → M S B) → Run S B
  and_then (ok a s) k = k a s
  and_then panic k = panic
  and_then fault k = fault
  and_then hang k = hang

abbrev pub get : {S : Type 0} → M S S
get s = ok s s

abbrev pub put : {S : Type 0} → S → M S (Unit {0})
put s' s = ok tt s'

-- `my_assert(b)`
abbrev pub my_assert : {S : Type 0} → Bool → M S (Unit {0})
my_assert b s = if b then ok tt s else panic

-- An array access with the test that the index is in range.
abbrev pub in_range : {S : Type 0} → Bool → M S (Unit {0})
in_range b s = if b then ok tt s else fault

infixl 5 ◌>>=◌ ◌>>◌
abbrev pub ◌>>=◌ : {S A B : Type 0} → M S A → (A → M S B) → M S B
◌>>=◌ m k s = and_then (m s) k

abbrev pub ◌>>◌ : {S B : Type 0} → M S (Unit {0}) → M S B → M S B
◌>>◌ m k s = and_then (m s) (λ _. k)

-- Total correctness of a run: it returns, and the value and state meet P.
pub data Returns {S A : Type 0} (P : A → S → Type 0) : Run S A → Type 0 where
  returns : {a : A} {s : S} → P a s → Returns P (ok a s)

module _ {S A : Type 0} {P : A → S → Type 0} where
  pub Returns-bind :
      {B : Type 0} {Q : B → S → Type 0} {r : Run S A} {k : A → M S B}
      → Returns P r
      → ((a : A) (s : S) → P a s → Returns Q (k a s))
      → Returns Q (and_then r k)
  Returns-bind (returns p) next = next _ _ p

  pub Returns-mono :
      {Q : A → S → Type 0} {r : Run S A}
      → Returns P r
      → ((a : A) (s : S) → P a s → Q a s)
      → Returns Q r
  Returns-mono (returns p) weaken = returns (weaken _ _ p)

-- Partial correctness: if the run returns, the value and state meet P.
abbrev pub Ensures : {S A : Type 0} → (A → S → Type 0) → Run S A → Type 0
Ensures P (ok a s) = P a s
Ensures P panic = Unit {0}
Ensures P fault = Unit {0}
Ensures P hang = Unit {0}

pub Ensures-bind :
    {S A B : Type 0} (P : A → S → Type 0) (Q : B → S → Type 0) (r : Run S A) (k : A → M S B)
    → Ensures P r
    → ((a : A) (s : S) → P a s → Ensures Q (k a s))
    → Ensures Q (and_then r k)
Ensures-bind P Q (ok a s) k p next = next a s p
Ensures-bind P Q panic k p next = tt
Ensures-bind P Q fault k p next = tt
Ensures-bind P Q hang k p next = tt

pub Returns-Ensures :
    {S A : Type 0} {P Q : A → S → Type 0} {r : Run S A}
    → Returns P r
    → Ensures Q r
    → Returns (λ a s. P a s × Q a s) r
Returns-Ensures (returns p) q = returns (p, q)

pub Ensures-mono :
    {S A : Type 0} (P Q : A → S → Type 0) (r : Run S A)
    → Ensures P r
    → ((a : A) (s : S) → P a s → Q a s)
    → Ensures Q r
Ensures-mono P Q (ok a s) p weaken = weaken a s p
Ensures-mono P Q panic p weaken = tt
Ensures-mono P Q fault p weaken = tt
Ensures-mono P Q hang p weaken = tt
