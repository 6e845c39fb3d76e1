-- ===== src/Kernel/Entrypgdir.antt =====
-- kernel/entrypgdir.c: the page tables that the kernel starts with.
use nju_oslab.Prelude.{
  ℕ, ◌+◌, ◌-◌, ◌*◌, ◌/◌, ◌%◌, ◌^◌, ◌≤◌, ◌<◌, ◌≡◌, ◌≢◌, refl, ap, ◌∙◌, bit_or, bit_or-fields,
  Bool-cases, inl, inr, ltb→lt, ltb→ge, ==→eq, ==→ne, Option, none, some, ltb, ◌==◌, eq→==, ne→==,
  if◌then◌else◌, arith,
}
use nju_oslab.Mmu.{kernbase, pdx, ptx, pgoff, pte_addr, pte_p, pte_w}

-- The 1024 entries that the source lists, `0x...000 | PTE_P | PTE_W`, in order.
unfoldable pub entry_pgtable : ℕ → ℕ
entry_pgtable i = bit_or (i * 0x1000) (bit_or pte_p pte_w)

-- `table` is the physical address of `entry_pgtable`. Entries that are not named are zero.
unfoldable pub entry_pgdir : ℕ → ℕ → ℕ
entry_pgdir table i =
    if i == 0 then table + pte_p else if i == kernbase / 2 ^ 22 then table + pte_p + pte_w else 0

-- The walk of the processor over these tables. The only page table is `entry_pgtable`.
unfoldable pub entry_translate : ℕ → ℕ → Option ℕ
entry_translate table va =
    let pde = entry_pgdir table (pdx va) in
    let pte = entry_pgtable (ptx va) in
    if pde % 2 == 0
    then none
    else if pte_addr pde == table
    then (if pte % 2 == 0 then none else some (pte_addr pte + pgoff va))
    else none

entry_pgtable-sum : (i : ℕ) → entry_pgtable i ≡ i * 2 ^ 12 + 3
unfolding entry_pgtable
entry_pgtable-sum i = bit_or-fields 12 i 3 (omega arith)

entry_translate-entry :
    (frame va flags : ℕ)
    → flags < 4
    → flags % 2 ≡ 1
    → entry_pgdir (frame * 2 ^ 12) (pdx va) ≡ frame * 2 ^ 12 + flags
    → entry_translate (frame * 2 ^ 12) va ≡ some (va % 2 ^ 22)
unfolding entry_translate ptx pgoff pte_addr
entry_translate-entry frame va flags lt odd e =
    rw
      (
        e,
        entry_pgtable-sum (va / 2 ^ 12 % 2 ^ 10),
        ne→== ((frame * 2 ^ 12 + flags) % 2) 0 (omega arith),
        eq→== ((frame * 2 ^ 12 + flags) / 2 ^ 12 * 2 ^ 12) (frame * 2 ^ 12) (omega arith),
        ne→== ((va / 2 ^ 12 % 2 ^ 10 * 2 ^ 12 + 3) % 2) 0 (omega arith),
      )
      (ap some (omega arith))

entry_pgdir-low : (table va : ℕ) → va < 2 ^ 22 → entry_pgdir table (pdx va) ≡ table + 1
unfolding entry_pgdir pdx
entry_pgdir-low table va h = rw (eq→== (va / 2 ^ 22 % 2 ^ 10) 0 (omega arith)) refl

entry_pgdir-high :
    (table va : ℕ) → va / 2 ^ 22 ≡ kernbase / 2 ^ 22 → entry_pgdir table (pdx va) ≡ table + 3
unfolding entry_pgdir pdx
entry_pgdir-high table va h =
    rw
      (
        ne→== (va / 2 ^ 22 % 2 ^ 10) 0 (omega arith),
        eq→== (va / 2 ^ 22 % 2 ^ 10) (kernbase / 2 ^ 22) (omega arith),
      )
      (omega arith)

entry_translate-none :
    (table va : ℕ)
    → va < 2 ^ 32
    → 2 ^ 22 ≤ va
    → va / 2 ^ 22 ≢ kernbase / 2 ^ 22
    → entry_translate table va ≡ none
unfolding entry_translate entry_pgdir pdx
entry_translate-none table va p q ne =
    rw
      (
        ne→== (va / 2 ^ 22 % 2 ^ 10) 0 (omega arith),
        ne→== (va / 2 ^ 22 % 2 ^ 10) (kernbase / 2 ^ 22) (omega (arith, ne)),
      )
      refl

-- The first tables, wherever they lie on a page boundary, map of the addresses below 2 ^ 32 the
-- first 4 MB and the 4 MB from KERNBASE on to the first 4 MB of the physical memory, each
-- address to the one at the same offset, and no other address.
pub entry_translate_lem :
    (frame va : ℕ)
    → va < 2 ^ 32
    → entry_translate (frame * 2 ^ 12) va ≡ (
        if ltb va (2 ^ 22)
        then some va
        else if (va / 2 ^ 22 == kernbase / 2 ^ 22)
        then some (va - kernbase)
        else none)
entry_translate_lem frame va h = elim (Bool-cases (ltb va (2 ^ 22))) [
  | inl e ↦ rw e (
      entry_translate-entry frame va 1 (omega arith) (omega arith)
        (entry_pgdir-low _ va (ltb→lt va _ e))
      ∙ ap some (omega (arith, ltb→lt va _ e)))
  | inr e ↦ rw e (elim (Bool-cases (va / 2 ^ 22 == kernbase / 2 ^ 22)) [
    | inl f ↦ rw f (
        entry_translate-entry frame va 3 (omega arith) (omega arith)
          (entry_pgdir-high _ va (==→eq _ (kernbase / 2 ^ 22) f))
        ∙ ap some (omega (arith, ==→eq _ (kernbase / 2 ^ 22) f)))
    | inr f ↦
        rw f (
          entry_translate-none (frame * 2 ^ 12) va h (ltb→ge va _ e)
            (==→ne _ (kernbase / 2 ^ 22) f))
  ])
]
