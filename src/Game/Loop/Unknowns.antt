-- ===== src/Game/Loop/Unknowns.antt =====
-- How many letters of a game are unknown.
use nju_oslab.Prelude.{
  ℕ, zero, suc, ◌+◌, ◌≤◌, ◌≡◌, ap, true, false, ◌&&◌, Bool-cases, inl, inr, ltb, ◌==◌, ==→eq,
  if◌then◌else◌, update, arith,
}
use nju_oslab.Game.{LetterState, is_unknown}

-- The number of unknown letters among the first n.
pub unknowns : ℕ → (ℕ → LetterState) → ℕ
unknowns zero k = 0
unknowns (suc n) k = unknowns n k + (if is_unknown (k n) then 1 else 0)

pub unknowns-update :
    (n i : ℕ) (v : LetterState) (k : ℕ → LetterState)
    → is_unknown v ≡ false
    → unknowns n (update k i v) + (if ltb i n && is_unknown (k i) then 1 else 0) ≡ unknowns n k
unfolding unknowns
unknowns-update zero i v k e = ground arith
unknowns-update (suc n) i v k e =
    let before = unknowns-update n i v k e in
    elim (Bool-cases (i == n)) [
      | inl f ↦
          let same : is_unknown (k i) ≡ is_unknown (k n) =
            ap (λ j. is_unknown (k j)) (==→eq i n f) in
          let here : ltb i (suc n) ≡ true = ground (arith, f) in
          let out : ltb i n ≡ false = ground (arith, f) in
          let rest : unknowns n (update k i v) ≡ unknowns n k = ground (arith, before, out) in
          rw (f, e, here, same, rest) (ground arith)
      | inr f ↦
          let here : ltb i (suc n) ≡ ltb i n = ground (arith, f) in
          rw (f, here) (omega (arith, before))
    ]

pub unknowns-most : (n : ℕ) (k : ℕ → LetterState) → unknowns n k ≤ n
unfolding unknowns
unknowns-most zero k = omega arith
unknowns-most (suc n) k =
    let rest = unknowns-most n k in
    elim (Bool-cases (is_unknown (k n))) [
      | inl e ↦ rw e (omega (arith, rest))
      | inr e ↦ rw e (omega (arith, rest))
    ]
