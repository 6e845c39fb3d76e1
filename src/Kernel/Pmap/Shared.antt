-- ===== src/Kernel/Pmap/Shared.antt =====
-- What one process sees when the memory of another changes, and the page that two share.
use nju_oslab.Prelude.{
  ℕ, ◌+◌, ◌-◌, ◌*◌, ◌/◌, ◌%◌, ◌^◌, ◌<◌, ◌≡◌, ◌≢◌, refl, ap, ◌∙◌, sym, bit_or, bit_or-fields, Option,
  none, some, lt→ltb, ◌==◌, eq→==, ne→==, if◌then◌else◌, Returns, returns, Returns-bind, arith,
}
use nju_oslab.Mmu.{nptentries, pgsize, pdx, ptx, pgoff, pte_addr}
use nju_oslab.Kernel.State.{Kernel}
use nju_oslab.Kernel.Pmap.{
  user_dir_num, pgtable_put, table_address, alloc_page, translate, pmap_copy_one_page,
}
use nju_oslab.Kernel.Pmap.Maps.{fill_pgtable-Filled}
use nju_oslab.Kernel.Pmap.Forked.{user_flags, LeadsTo, dir_set, pgdir_put-ok}

-- The page of w, by the entry of the page table.
abbrev page_of : ℕ → ℕ → Option ℕ
page_of pte w = if pte % 2 == 0 then none else some (pte_addr pte + pgoff w)

-- With its own table behind the slot of w, a process sees what that table says.
translate-page_of :
    (frames q w : ℕ) (t : Kernel)
    → LeadsTo frames t t.cr3 (pdx w) q
    → translate (frames * 2 ^ 12) t w ≡ page_of (t.user_pgtable q (ptx w)) w
unfolding translate pte_addr
translate-page_of frames q w t e =
    let d : t.user_pgdir t.cr3 (pdx w) ≡ (frames + q) * 2 ^ 12 + user_flags =
      e
      ∙ ap (λ b. bit_or b user_flags) (omega arith)
      ∙ bit_or-fields 12 (frames + q) user_flags (omega arith) in
    let row : (((frames + q) * 2 ^ 12 + user_flags) / 2 ^ 12 * 2 ^ 12 - frames * 2 ^ 12) / pgsize
        ≡ q =
      omega arith in
    rw (d, row, ne→== (((frames + q) * 2 ^ 12 + user_flags) % 2) 0 (omega arith)) refl

-- With the user page tables on a page boundary, and a process q whose directory is loaded and
-- leads to its own table at the address w: when `alloc_page` gives its memory to another
-- process, one among the first 28, it returns, and w is translated for q as before.
pub alloc_page-translate :
    (frames va flags pid q w : ℕ) (s : Kernel)
    → pid < user_dir_num
    → q ≢ pid
    → s.cr3 ≡ q
    → LeadsTo frames s q (pdx w) q
    → Returns
        (λ _ t. translate (frames * 2 ^ 12) t w ≡ translate (frames * 2 ^ 12) s w)
        (alloc_page (frames * 2 ^ 12) va flags pid s)
unfolding alloc_page
alloc_page-translate frames va flags pid q w s lt ne loaded leads =
    let e : ℕ = bit_or (table_address (frames * 2 ^ 12) pid) flags in
    rw (pgdir_put-ok pid (pdx va) e s (omega (arith, lt))) (
      Returns-bind (fill_pgtable-Filled nptentries 0 pid flags (dir_set s pid (pdx va) e) lt)
        (λ _ t f. returns (
          translate-page_of frames q w t (
            ap (λ k. k.user_pgdir k.cr3 (pdx w)) f.same
            ∙ rw (loaded, ne→== pid q (λ z. ne (sym z))) leads)
          ∙ ap (λ p. page_of p w) (f.others q (ptx w) ne)
          ∙ sym
              (translate-page_of frames q w s (ap (λ c. s.user_pgdir c (pdx w)) loaded ∙ leads)))))

-- With the user page tables on a page boundary, two processes among the first 28, an address
-- `va` on a page boundary, and w in the page of `va`, where the directory of each leads to its
-- own table: `pmap_copy_one_page` returns, and the one process then has at w what the other had
-- there before, the same physical address or none.
pub pmap_copy_one_page-translate :
    (frames dest_pid src_pid va w : ℕ) (s : Kernel)
    → dest_pid < user_dir_num
    → src_pid < user_dir_num
    → va % pgsize ≡ 0
    → ptx w ≡ ptx va
    → LeadsTo frames s dest_pid (pdx w) dest_pid
    → LeadsTo frames s src_pid (pdx w) src_pid
    → Returns
        (λ _ t.
          translate (frames * 2 ^ 12) (record t { cr3 = dest_pid }) w
          ≡ translate (frames * 2 ^ 12) (record s { cr3 = src_pid }) w)
        (pmap_copy_one_page dest_pid src_pid va s)
unfolding pmap_copy_one_page pgtable_put
pmap_copy_one_page-translate frames dest_pid src_pid va w s ld ls aligned same to_dest to_src =
    rw
      (
        eq→== (va % pgsize) 0 aligned,
        lt→ltb src_pid user_dir_num ls,
        lt→ltb dest_pid user_dir_num ld,
      )
      (returns (
        translate-page_of frames dest_pid w _ to_dest
        ∙ rw (eq→== dest_pid dest_pid refl, same, eq→== (ptx va) (ptx va) refl) refl
        ∙ sym (translate-page_of frames src_pid w (record s { cr3 = src_pid }) to_src)))
