-- ===== src/LibString/Laws.antt =====
-- What `strncmp` decides and what `strncpy` writes.
use nju_oslab.Prelude.{
  ℕ, zero, suc, ◌+◌, ◌≤◌, ◌<◌, ◌≡◌, ◌≢◌, ◌↔◌, refl, ap, sym, ◌∙◌, ◌⊎◌, Bool, true, false,
  Bool-cases, inl, inr, ◌==◌, ==→eq, ==→ne, eq→==, ne→==, update, arith,
}
use nju_oslab.LibString.{strncmp, strncmp_from, strncpy, strncpy_from}

-- From index i on, for n bytes or up to the end of the first string, the two are the same.
abbrev pub SameFrom : (s1 s2 : ℕ → ℕ) → ℕ → ℕ → Type 0
SameFrom s1 s2 i n =
    (k : ℕ) → i ≤ k → k < i + n → ((m : ℕ) → i ≤ m → m < k → s1 m ≢ 0) → s1 k ≡ s2 k

SameFrom-strncmp_from : (s1 s2 : ℕ → ℕ) (n i : ℕ) → strncmp_from s1 s2 n i ≡ 0 → SameFrom s1 s2 i n
unfolding strncmp_from
SameFrom-strncmp_from s1 s2 zero i h k a b c = absurd (omega arith)
SameFrom-strncmp_from s1 s2 (suc n) i h k a b c = elim (Bool-cases (i == k)) [
  | inl here ↦ ground (arith, ap s1 (==→eq i k here), ap s2 (==→eq i k here))
  | inr later ↦
      SameFrom-strncmp_from s1 s2 n (i + 1) (ground (arith, c i)) k (omega (arith, ==→ne i k later))
        (omega arith) (λ m p q. c m (omega arith) q)
]

strncmp_from-SameFrom : (s1 s2 : ℕ → ℕ) (n i : ℕ) → SameFrom s1 s2 i n → strncmp_from s1 s2 n i ≡ 0
unfolding strncmp_from
strncmp_from-SameFrom s1 s2 zero i h = refl
strncmp_from-SameFrom s1 s2 (suc n) i h =
    let e : s1 i ≡ s2 i = h i (omega arith) (omega arith) (λ m p q. absurd (omega arith)) in
    rw (eq→== (s1 i) (s2 i) e) (elim (Bool-cases (s1 i == 0)) [
      | inl end ↦ rw end refl
      | inr more ↦ rw more (
          strncmp_from-SameFrom s1 s2 n (i + 1)
            (λ k a b c. h k (omega arith) (omega arith) (extend k c (==→ne _ 0 more))))
    ])
  where
    extend :
        (k : ℕ)
        → ((m : ℕ) → i + 1 ≤ m → m < k → s1 m ≢ 0)
        → s1 i ≢ 0
        → (m : ℕ) → i ≤ m
        → m < k
        → s1 m ≢ 0
    extend k c ne m p q = elim (Bool-cases (i == m)) [
      | inl here ↦ λ z. ne (ap s1 (==→eq i m here) ∙ z)
      | inr later ↦ c m (omega (arith, ==→ne i m later)) q
    ]

-- The first n bytes agree, up to the end of the first string.
abbrev pub SameName : (s1 s2 : ℕ → ℕ) → ℕ → Type 0
SameName s1 s2 n = (k : ℕ) → k < n → ((m : ℕ) → m < k → s1 m ≢ 0) → s1 k ≡ s2 k

-- `strncmp` returns 0 exactly at two strings that agree for n bytes or up to the end of the
-- first.
pub strncmp_iff : (s1 s2 : ℕ → ℕ) (n : ℕ) → (strncmp s1 s2 n ≡ 0) ↔ SameName s1 s2 n
unfolding strncmp
strncmp_iff s1 s2 n = (
  λ h k p c. SameFrom-strncmp_from s1 s2 n 0 h k (omega arith) (omega arith) (λ m _ q. c m q),
  λ h. strncmp_from-SameFrom s1 s2 n 0 (λ k _ p c. h k (omega arith) (λ m q. c m (omega arith) q)),
)

-- Bytes outside the n are left alone.
strncpy_from_frame :
    (dest src : ℕ → ℕ) (n i : ℕ) (eos : Bool) (k : ℕ)
    → k < i ⊎ i + n ≤ k
    → strncpy_from dest src n i eos k ≡ dest k
unfolding strncpy_from
strncpy_from_frame dest src zero i eos k h = refl
strncpy_from_frame dest src (suc n) i true k h =
    strncpy_from_frame (update dest i 0) src n (i + 1) true k (omega arith) ∙ ground arith
strncpy_from_frame dest src (suc n) i false k h =
    strncpy_from_frame (update dest i (src i)) src n (i + 1) (src i == 0) k (omega arith)
    ∙ ground arith

-- After the end of the string, zeros.
strncpy_from_zeros :
    (dest src : ℕ → ℕ) (n i k : ℕ) → i ≤ k → k < i + n → strncpy_from dest src n i true k ≡ 0
unfolding strncpy_from
strncpy_from_zeros dest src zero i k a b = absurd (omega arith)
strncpy_from_zeros dest src (suc n) i k a b = elim (Bool-cases (i == k)) [
  | inl here ↦
      strncpy_from_frame (update dest i 0) src n (i + 1) true k (inl (ground arith)) ∙ rw here refl
  | inr later ↦ strncpy_from_zeros (update dest i 0) src n (i + 1) k (ground arith) (omega arith)
]

strncpy_from-SameFrom :
    (dest src : ℕ → ℕ) (n i : ℕ) → SameFrom src (strncpy_from dest src n i false) i n
unfolding strncpy_from
strncpy_from-SameFrom dest src zero i k a b c = absurd (omega arith)
strncpy_from-SameFrom dest src (suc n) i k a b c = elim (Bool-cases (i == k)) [
  | inl here ↦ sym (
      strncpy_from_frame (update dest i (src i)) src n (i + 1) (src i == 0) k (inl (ground arith))
      ∙ rw here (ap src (==→eq i k here)))
  | inr later ↦ rw (ne→== (src i) 0 (c i (omega arith) (omega (arith, ==→ne i k later)))) (
      strncpy_from-SameFrom (update dest i (src i)) src n (i + 1) k (ground arith) (omega arith)
        (λ m p q. c m (omega arith) q))
]

-- A name copied by `strncpy` over any buffer compares equal to its source over the same number
-- of bytes.
pub strncmp-strncpy : (dest src : ℕ → ℕ) (n : ℕ) → strncmp src (strncpy dest src n) n ≡ 0
unfolding strncmp strncpy
strncmp-strncpy dest src n =
    strncmp_from-SameFrom src (strncpy_from dest src n 0 false) n 0
      (strncpy_from-SameFrom dest src n 0)
