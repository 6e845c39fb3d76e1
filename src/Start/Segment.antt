-- ===== src/Start/Segment.antt =====
-- One segment of a program in the memory of its process.
use nju_oslab.Prelude.{
  ℕ, zero, suc, ◌+◌, ◌-◌, ◌%◌, ◌^◌, ◌≤◌, ◌<◌, ◌≡◌, refl, ap, ◌∙◌, true, false, Bool-cases, inl, inr,
  ◌⊎◌, ◌&&◌, some, ltb, leb, ◌==◌, eq→==, ne→==, ==→eq, ==→ne, if◌then◌else◌, ok, update, arith,
  add32, Returns, returns, Returns-mono,
}
use nju_oslab.Mmu.{pdx}
use nju_oslab.Kernel.State.{Kernel}
use nju_oslab.Kernel.Pmap.{user_start, translate}
use nju_oslab.Start.{store_at, store_byte, store_bytes}

-- The addresses of the 4 MB of a process.
pub record IsUser (w : ℕ) : Type 0 where
  pub from : user_start ≤ w
  pub below : w < user_start + 2 ^ 22

module _ (tables base : ℕ) where
  -- The loaded directory maps the 4 MB to the physical address `base`.
  abbrev pub IsMapped : Kernel → Type 0
  IsMapped k = (w : ℕ) → IsUser w → translate tables k w ≡ some (base + w % 2 ^ 22)

  -- The n bytes from `bytes o` on are at the address va + o, and the rest of the machine is as it was.
  pub record Stored (k : Kernel) (n o va : ℕ) (bytes : ℕ → ℕ) (t : Kernel) : Type 0 where
    pub same : t ≡ record k { ram = t.ram }
    pub there :
        (w : ℕ)
        → IsUser w
        → t.ram (base + w % 2 ^ 22) ≡ (
            if leb (va + o) w && ltb w (va + o + n)
            then bytes (w - va)
            else k.ram (base + w % 2 ^ 22))
    pub others : (a : ℕ) → (a < base) ⊎ (base + 2 ^ 22 ≤ a) → t.ram a ≡ k.ram a

  store_byte-ok :
      (k : Kernel) (w b : ℕ)
      → IsMapped k
      → IsUser w
      → store_byte tables w b k ≡ ok tt (record k { ram = update k.ram (base + w % 2 ^ 22) b })
  unfolding store_byte store_at pdx
  store_byte-ok k w b m u =
      rw (eq→== (pdx w) (pdx user_start) (omega (arith, u.from, u.below)), m w u) refl

  -- The byte of a store, before the stores after it.
  first_byte :
      (k : Kernel) (va o n w : ℕ) (bytes : ℕ → ℕ)
      → IsUser (va + o)
      → IsUser w
      → (if leb (va + (o + 1)) w && ltb w (va + (o + 1) + n)
          then bytes (w - va)
          else update k.ram (base + (va + o) % 2 ^ 22) (bytes o) (base + w % 2 ^ 22))
        ≡ (if leb (va + o) w && ltb w (va + o + suc n)
            then bytes (w - va)
            else k.ram (base + w % 2 ^ 22))
  first_byte k va o n w bytes u v = elim (Bool-cases (va + o == w)) [
    | inl e ↦
        let above : (leb (va + (o + 1)) w && ltb w (va + (o + 1) + n)) ≡ false =
          ground (arith, e) in
        let hit : (base + (va + o) % 2 ^ 22 == base + w % 2 ^ 22) ≡ true =
          eq→== (base + (va + o) % 2 ^ 22) (base + w % 2 ^ 22)
            (ap (λ x. base + x % 2 ^ 22) (==→eq (va + o) w e)) in
        let all : (leb (va + o) w && ltb w (va + o + suc n)) ≡ true = ground (arith, e) in
        let place : o ≡ w - va = ground (arith, e) in rw (above, hit, all) (ap bytes place)
    | inr e ↦
        let miss : (base + (va + o) % 2 ^ 22 == base + w % 2 ^ 22) ≡ false =
          ne→== (base + (va + o) % 2 ^ 22) (base + w % 2 ^ 22) (λ h.
            absurd (omega (arith, ==→ne (va + o) w e, h, u.from, u.below, v.from, v.below))) in
        let rest : (leb (va + (o + 1)) w && ltb w (va + (o + 1) + n))
            ≡ (leb (va + o) w && ltb w (va + o + suc n)) =
          ground (arith, e) in
        rw (miss, rest) refl
  ]

  outside :
      (k : Kernel) (w b a : ℕ)
      → (a < base) ⊎ (base + 2 ^ 22 ≤ a)
      → update k.ram (base + w % 2 ^ 22) b a ≡ k.ram a
  outside k w b a h =
      rw
        (ne→== (base + w % 2 ^ 22) a
          (elim h [ inl p ↦ omega (arith, p) | inr p ↦ omega (arith, p) ]))
        refl

  pub store_bytes-Stored :
      (n o va : ℕ) (bytes : ℕ → ℕ) (k : Kernel)
      → IsMapped k
      → user_start ≤ va
      → va + o + n ≤ user_start + 2 ^ 22
      → Returns (λ _ t. Stored k n o va bytes t) (store_bytes tables n o va bytes k)
  unfolding store_bytes translate
  store_bytes-Stored zero o va bytes k m p q =
      returns record { same = refl; there = λ w u. ground arith; others = λ a h. refl }
  store_bytes-Stored (suc n) o va bytes k m p q =
      let u : IsUser (va + o) = record { from = omega (arith, p); below = omega (arith, q) } in
      let k' : Kernel = record k { ram = update k.ram (base + (va + o) % 2 ^ 22) (bytes o) } in
      let e : add32 va o ≡ va + o = omega (arith, q) in
      rw (e, store_byte-ok k (va + o) (bytes o) m u)
        (Returns-mono (store_bytes-Stored n (o + 1) va bytes k' m p (omega (arith, q))) (λ _ t r.
          record {
            same = r.same;
            there = λ w v. r.there w v ∙ first_byte k va o n w bytes u v;
            others = λ a h. r.others a h ∙ outside k (va + o) (bytes o) a h;
          }))
