-- ===== src/Kernel/Pmap/Maps.antt =====
-- What `alloc_page` maps.
use nju_oslab.Prelude.{
  ℕ, zero, suc, ◌+◌, ◌-◌, ◌*◌, ◌/◌, ◌%◌, ◌^◌, ◌<◌, ◌≡◌, ◌≢◌, refl, ap, ◌∙◌, sym, bit_or,
  bit_or-fields, Bool-cases, inl, inr, ==→eq, ◌&&◌, some, ltb, leb, lt→ltb, ◌==◌, eq→==, ne→==,
  if◌then◌else◌, update, ok, Returns, returns, Returns-mono, Returns-bind, arith,
}
use nju_oslab.Mmu.{nptentries, pgsize, pdx, ptx, pgoff, pte_addr}
use nju_oslab.Kernel.State.{Kernel, upcb_num}
use nju_oslab.Kernel.Pmap.{
  kern_mem, user_dir_num, pgdir_put, pgtable_put, frame_entry, fill_pgtable, table_address,
  alloc_page, translate,
}

-- The entries i to i + n of the table of `pid` are filled, and nothing else has changed.
pub record Filled (s : Kernel) (pid flags i n : ℕ) (t : Kernel) : Type 0 where
  pub same : t ≡ record s { user_pgtable = t.user_pgtable }
  pub entries :
      (j : ℕ)
      → t.user_pgtable pid j
        ≡ (if leb i j && ltb j (i + n) then frame_entry pid j flags else s.user_pgtable pid j)
  pub others : (q j : ℕ) → q ≢ pid → t.user_pgtable q j ≡ s.user_pgtable q j

pgtable_put-ok :
    (pid i e : ℕ) (s : Kernel)
    → pid < user_dir_num
    → pgtable_put pid i e s
      ≡ ok tt
          (record s { user_pgtable = update s.user_pgtable pid (update (s.user_pgtable pid) i e) })
unfolding pgtable_put
pgtable_put-ok pid i e s h = rw (lt→ltb pid user_dir_num h) refl

entry_step :
    (i n j pid flags w : ℕ)
    → (if leb (i + 1) j && ltb j (i + 1 + n)
        then frame_entry pid j flags
        else if i == j
        then frame_entry pid i flags
        else w)
      ≡ (if leb i j && ltb j (i + suc n) then frame_entry pid j flags else w)
entry_step i n j pid flags w = elim (Bool-cases (i == j)) [
  | inl e ↦ rw e (ground (arith, e, ap (λ k. frame_entry pid k flags) (==→eq i j e)))
  | inr e ↦ rw e (ground (arith, e))
]

pub fill_pgtable-Filled :
    (n i pid flags : ℕ) (s : Kernel)
    → pid < user_dir_num
    → Returns (λ _ t. Filled s pid flags i n t) (fill_pgtable n i pid flags s)
unfolding fill_pgtable
fill_pgtable-Filled zero i pid flags s h =
    returns record { same = refl; entries = λ j. ground arith; others = λ q j ne. refl }
fill_pgtable-Filled (suc n) i pid flags s h =
    rw (pgtable_put-ok pid i (frame_entry pid i flags) s h) (
      Returns-mono
        (fill_pgtable-Filled n (i + 1) pid flags
          (record s {
            user_pgtable =
                update s.user_pgtable pid (update (s.user_pgtable pid) i (frame_entry pid i flags));
          })
          h)
        (λ _ t f. record {
          same = f.same;
          entries = λ j.
              f.entries j
              ∙ rw (eq→== pid pid refl) (entry_step i n j pid flags (s.user_pgtable pid j));
          others = λ q j ne. f.others q j ne ∙ rw (ne→== pid q (λ e. ne (sym e))) refl;
        }))

frame_entry-sum :
    (pid i flags : ℕ)
    → i < 1024
    → flags < 2 ^ 12
    → frame_entry pid i flags ≡ kern_mem + pid * 2 ^ 22 + i * 2 ^ 12 + flags
unfolding frame_entry
frame_entry-sum pid i flags h k =
    ap (λ b. bit_or (bit_or b (i * 2 ^ 12)) flags) (the_sum pid)
    ∙ ap (λ b. bit_or b flags) (bit_or-fields 22 (4 + pid) (i * 2 ^ 12) (omega arith) ∙ pages)
    ∙ bit_or-fields 12 ((4 + pid) * 2 ^ 10 + i) flags k
    ∙ omega arith
  where
    the_sum : (pid : ℕ) → kern_mem + pid * 2 ^ 22 ≡ (4 + pid) * 2 ^ 22
    the_sum pid = omega arith

    pages : (4 + pid) * 2 ^ 22 + i * 2 ^ 12 ≡ ((4 + pid) * 2 ^ 10 + i) * 2 ^ 12
    pages = omega arith

-- A directory entry that leads to the table of `pid`, and an entry of that table.
pub translate-entries :
    (frames pid flags w : ℕ) (t : Kernel)
    → flags < 2 ^ 12
    → flags % 2 ≡ 1
    → t.user_pgdir t.cr3 (pdx w) ≡ bit_or (table_address (frames * 2 ^ 12) pid) flags
    → t.user_pgtable pid (ptx w) ≡ frame_entry pid (ptx w) flags
    → translate (frames * 2 ^ 12) t w ≡ some (kern_mem + pid * 2 ^ 22 + w % 2 ^ 22)
unfolding translate pte_addr ptx pgoff
translate-entries frames pid flags w t lt odd e f =
    let d : t.user_pgdir t.cr3 (pdx w) ≡ (frames + pid) * 2 ^ 12 + flags =
      e ∙ ap (λ b. bit_or b flags) (omega arith) ∙ bit_or-fields 12 (frames + pid) flags lt in
    let row : (((frames + pid) * 2 ^ 12 + flags) / 2 ^ 12 * 2 ^ 12 - frames * 2 ^ 12) / pgsize
        ≡ pid =
      omega arith in
    let g : t.user_pgtable pid (w / 2 ^ 12 % 2 ^ 10)
        ≡ kern_mem + pid * 2 ^ 22 + w / 2 ^ 12 % 2 ^ 10 * 2 ^ 12 + flags =
      f ∙ frame_entry-sum pid (w / 2 ^ 12 % 2 ^ 10) flags (omega arith) lt in
    rw
      (
        d,
        row,
        g,
        ne→== (((frames + pid) * 2 ^ 12 + flags) % 2) 0 (omega arith),
        ne→== ((kern_mem + pid * 2 ^ 22 + w / 2 ^ 12 % 2 ^ 10 * 2 ^ 12 + flags) % 2) 0
            (omega arith),
      )
      (ap some (omega arith))

pub ptx-lt : (w : ℕ) → ptx w < 1024
unfolding ptx
ptx-lt w = omega arith

-- With the user page tables on a page boundary, a process among the first 28 whose directory is
-- loaded, and flags below 2 ^ 12 with the present bit, `alloc_page` returns the start of the 4
-- MB of that process, and an address w in the same 4 MB of virtual memory as `va` is then
-- translated to the same offset in them.
pub alloc_page-Maps :
    (frames va flags pid w : ℕ) (s : Kernel)
    → pid < user_dir_num
    → flags < 2 ^ 12
    → flags % 2 ≡ 1
    → pdx w ≡ pdx va
    → s.cr3 ≡ pid
    → Returns
        (λ pa t.
          (pa ≡ kern_mem + pid * 2 ^ 22)
          × (translate (frames * 2 ^ 12) t w ≡ some (pa + w % 2 ^ 22)))
        (alloc_page (frames * 2 ^ 12) va flags pid s)
unfolding alloc_page pgdir_put
alloc_page-Maps frames va flags pid w s lt fl odd same loaded =
    rw (lt→ltb pid upcb_num (omega (arith, lt))) (
      Returns-bind
        (fill_pgtable-Filled nptentries 0 pid flags
          (record s {
            user_pgdir = update s.user_pgdir pid (
                update (s.user_pgdir pid) (pdx va)
                  (bit_or (table_address (frames * 2 ^ 12) pid) flags));
          })
          lt)
        (λ _ t f. returns (
          refl,
          translate-entries frames pid flags w t fl odd
              (ap (λ k. k.user_pgdir k.cr3 (pdx w)) f.same
                ∙ rw (loaded, same, eq→== pid pid refl, eq→== (pdx va) (pdx va) refl) refl)
              (f.entries (ptx w) ∙ rw (lt→ltb (ptx w) 1024 (ptx-lt w)) (ground arith)),
        )))
