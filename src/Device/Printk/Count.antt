-- ===== src/Device/Printk/Count.antt =====
-- The answer of `vfprintf` is the number of characters that it has sent.
use nju_oslab.Prelude.{
  ℕ, zero, suc, ◌+◌, ◌%◌, ◌^◌, ◌<◌, ◌≡◌, ◌≢◌, refl, Bool-cases, inl, inr, List, [], ◌∷◌, length,
  leb, ◌==◌, eq→==, ne→==, ok, M, Returns, returns, Returns-bind, Returns-mono, add32, sub32, arith,
}
use nju_oslab.Device.Printk.{
  convert, puts_from, puts, print_int, directive, vfprintf_from, vfprintf,
}

-- A line that keeps what is sent, the last character first, and answers 1 as `serial_printc` does.
abbrev pub line : ℕ → M (List ℕ) ℕ
line c sent = ok 1 (c ∷ sent)

-- The count and the line have grown alike.
abbrev pub Grown : ℕ → List ℕ → ℕ → List ℕ → Type 0
Grown count sent count' sent' = (count' + length sent) % 2 ^ 32 ≡ (count + length sent') % 2 ^ 32

puts_from-Grown :
    (text : List ℕ) (count : ℕ) (sent : List ℕ)
    → Returns (Grown count sent) (puts_from line text count sent)
unfolding puts_from
puts_from-Grown [] count sent = returns refl
puts_from-Grown (c ∷ text) count sent =
    Returns-mono (puts_from-Grown text (add32 count 1) (c ∷ sent)) (λ k t g. omega (arith, g))

puts-Grown : (text : List ℕ) (sent : List ℕ) → Returns (Grown 0 sent) (puts line text sent)
unfolding puts
puts-Grown text sent = puts_from-Grown text 0 sent

module _ (args : ℕ → ℕ) (string_at : ℕ → List ℕ) where
  print_int-Grown :
      (i count : ℕ) (sent : List ℕ)
      → Returns (Grown count sent) (print_int line line args string_at i count sent)
  unfolding print_int
  print_int-Grown i count sent = elim (Bool-cases (leb (2 ^ 31) i)) [
    | inl e ↦ rw e (
        Returns-bind (puts-Grown (convert (sub32 0 i) 10) (45 ∷ sent))
          (λ k t g. returns (omega (arith, g))))
    | inr e ↦
        rw e (Returns-bind (puts-Grown (convert i 10) sent) (λ k t g. returns (omega (arith, g))))
  ]

  directive-Grown :
      (c a count : ℕ) (sent : List ℕ)
      → Returns (λ r. Grown count sent r.1) (directive line line args string_at c a count sent)
  unfolding directive
  directive-Grown c a count sent = elim (Bool-cases (c == 100)) [
    | inl e ↦ rw e (Returns-bind (print_int-Grown (args a) count sent) (λ k t g. returns g))
    | inr e ↦ rw e (elim (Bool-cases (c == 120)) [
      | inl f ↦ rw f (
          Returns-bind (puts-Grown (convert (args a) 16) sent)
            (λ k t g. returns (omega (arith, g))))
      | inr f ↦ rw f (elim (Bool-cases (c == 99)) [
        | inl g ↦ rw g (returns (omega arith))
        | inr g ↦ rw g (elim (Bool-cases (c == 115)) [
          | inl h ↦ rw h (
              Returns-bind (puts-Grown (string_at (args a)) sent)
                (λ k t q. returns (omega (arith, q))))
          | inr h ↦ rw h (returns refl)
        ])
      ])
    ])
  ]

  -- From index i on, the format ends after n rounds, and not in a '%'.
  pub data Terminates (ctl : ℕ → ℕ) : ℕ → ℕ → Type 0 where
    ended : {i : ℕ} → ctl i ≡ 0 → Terminates ctl i 0
    plain : {i n : ℕ} → ctl i ≢ 0 → ctl i ≢ 37 → Terminates ctl (i + 1) n → Terminates ctl i (suc n)
    percent :
        {i n : ℕ}
        → ctl i ≡ 37
        → ctl (i + 1) ≢ 0
        → Terminates ctl (i + 2) n
        → Terminates ctl i (suc n)

  vfprintf_from-Grown :
      (ctl : ℕ → ℕ) (fuel i n a count : ℕ) (sent : List ℕ)
      → n < fuel
      → Terminates ctl i n
      → Returns (Grown count sent) (vfprintf_from line line args string_at ctl fuel i a count sent)
  unfolding vfprintf_from
  vfprintf_from-Grown ctl zero i n a count sent lt h = absurd (omega arith)
  vfprintf_from-Grown ctl (suc fuel) i zero a count sent lt (ended e) =
      rw (eq→== _ 0 e) (returns refl)
  vfprintf_from-Grown ctl (suc fuel) i (suc n) a count sent lt (plain e f h) =
      rw (ne→== _ 0 e, ne→== _ 37 f)
        (Returns-mono
          (vfprintf_from-Grown ctl fuel (i + 1) n a (add32 count 1) (ctl i ∷ sent) (omega arith) h)
          (λ k t g. omega (arith, g)))
  vfprintf_from-Grown ctl (suc fuel) i (suc n) a count sent lt (percent e f h) =
      rw (ne→== (ctl i) 0 (omega (arith, e)), eq→== _ 37 e)
        (Returns-bind (directive-Grown (ctl (i + 1)) a count sent) (λ r t g.
          Returns-mono (vfprintf_from-Grown ctl fuel (i + 2) n r.0 r.1 t (omega arith) h)
            (λ k u q. omega (arith, g, q))))

  -- On a line that answers 1 to every character, and for a format that ends after n rounds and
  -- not in a '%', with fuel for more than n rounds, `vfprintf` returns, and its answer is the
  -- number of characters sent, modulo 2 ^ 32.
  pub vfprintf-Grown :
      (ctl : ℕ → ℕ) (fuel n : ℕ) (sent : List ℕ)
      → n < fuel
      → Terminates ctl 0 n
      → Returns (Grown 0 sent) (vfprintf line line args string_at fuel ctl sent)
  unfolding vfprintf
  vfprintf-Grown ctl fuel n sent lt h = vfprintf_from-Grown ctl fuel 0 n 0 0 sent lt h
