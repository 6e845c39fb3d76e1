-- ===== src/Kernel/Pmap/Copy.antt =====
-- The copy of the user's memory by `pmap_init_and_copy`.
use nju_oslab.Prelude.{
  ℕ, zero, suc, ◌+◌, ◌≤◌, ◌<◌, ◌≡◌, ◌⊎◌, refl, ap, ◌∙◌, Bool-cases, inl, inr, ==→eq, ==→ne, some,
  ◌==◌, eq→==, ne→==, update, Returns, returns, Returns-mono, arith,
}
use nju_oslab.Kernel.State.{Kernel}
use nju_oslab.Kernel.Pmap.{translate, move_between, move_byte, memcpy_virtual}

module _ (tables dst src to from : ℕ) where
  -- The bytes o to o + n behind `from` stand behind `to`, and nothing else has changed.
  pub record Copied (s : Kernel) (o n : ℕ) (t : Kernel) : Type 0 where
    pub same : t ≡ record s { ram = t.ram }
    pub moved : (k : ℕ) → o ≤ k → k < o + n → t.ram (to + k) ≡ s.ram (from + k)
    pub kept : (a : ℕ) → (a < to + o) ⊎ (to + (o + n) ≤ a) → t.ram a ≡ s.ram a

  -- Behind `dst` and `src` the state s maps `size` bytes to those behind `to` and `from`.
  pub record MapsBoth (s : Kernel) (size : ℕ) : Type 0 where
    pub to_there : (o : ℕ) → o < size → translate tables s (dst + o) ≡ some (to + o)
    pub from_there : (o : ℕ) → o < size → translate tables s (src + o) ≡ some (from + o)

  MapsBoth-ram :
      (s : Kernel) (size : ℕ) (r : ℕ → ℕ) → MapsBoth s size → MapsBoth (record s { ram = r }) size
  unfolding translate
  MapsBoth-ram s size r m = record { to_there = m.to_there; from_there = m.from_there }

  pub memcpy_virtual-Copied :
      (size n o : ℕ) (s : Kernel)
      → o + n ≤ size
      → (to + size ≤ from) ⊎ (from + size ≤ to)
      → MapsBoth s size
      → Returns (λ _ t. Copied s o n t) (memcpy_virtual tables n o dst src s)
  unfolding memcpy_virtual move_byte move_between
  memcpy_virtual-Copied size zero o s h apart m =
      returns record { same = refl; moved = λ k p q. absurd (omega arith); kept = λ a p. refl }
  memcpy_virtual-Copied size (suc n) o s h apart m =
      let r : ℕ → ℕ = update s.ram (to + o) (s.ram (from + o)) in
      rw (m.to_there o (omega arith), m.from_there o (omega arith))
        (Returns-mono
          (memcpy_virtual-Copied size n (o + 1) (record s { ram = r }) (omega arith) apart
            (MapsBoth-ram s size r m))
          (λ _ t c. record {
            same = c.same;
            moved = λ k p q. elim (Bool-cases (o == k)) [
              | inl e ↦
                  c.kept (to + k) (inl (omega (arith, ==→eq o k e)))
                  ∙ rw (eq→== (to + o) (to + k) (omega (arith, ==→eq o k e)))
                      (ap (λ j. s.ram (from + j)) (==→eq o k e))
              | inr e ↦
                  c.moved k (omega (arith, ==→ne o k e)) (omega arith)
                  ∙ rw (ne→== (to + o) (from + k) (omega arith)) refl
            ];
            kept =
                λ a p. c.kept a (omega (arith, p)) ∙ rw (ne→== (to + o) a (omega (arith, p))) refl;
          }))
