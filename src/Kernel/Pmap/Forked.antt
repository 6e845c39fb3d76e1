-- ===== src/Kernel/Pmap/Forked.antt =====
-- What `pmap_init_and_copy` gives the child.
use nju_oslab.Prelude.{
  ℕ, ◌+◌, ◌*◌, ◌/◌, ◌%◌, ◌^◌, ◌≤◌, ◌<◌, ◌≡◌, ◌≢◌, ◌⊎◌, refl, ap, ◌∙◌, sym, bit_or, some, lt→ltb,
  eq→==, ne→==, update, ok, Returns, returns, Returns-bind, arith,
}
use nju_oslab.Mmu.{kernbase, nptentries, ptsize, pdx, ptx}
use nju_oslab.Kernel.State.{Kernel, upcb_num}
use nju_oslab.Kernel.Pmap.{
  kern_mem, user_dir_num, user_start, new_addr, pgdir_put, pcb_page_init, frame_entry,
  table_address, alloc_page, translate, pmap_init_and_copy,
}
use nju_oslab.Kernel.Pmap.Maps.{Filled, fill_pgtable-Filled, translate-entries, ptx-lt}
use nju_oslab.Kernel.Pmap.Copy.{Copied, MapsBoth, memcpy_virtual-Copied}

-- PTE_P | PTE_W | PTE_U
abbrev pub user_flags : ℕ
user_flags = 7

-- The first byte of the 4 MB of a process.
abbrev pub memory_of : ℕ → ℕ
memory_of pid = kern_mem + pid * 2 ^ 22

-- The slot i of the directory of p leads to the table of q.
abbrev pub LeadsTo : ℕ → Kernel → ℕ → ℕ → ℕ → Type 0
LeadsTo frames s p i q = s.user_pgdir p i ≡ bit_or (table_address (frames * 2 ^ 12) q) user_flags

-- The table of p has its own 4 MB, in order.
abbrev pub HasTable : Kernel → ℕ → Type 0
HasTable s p = (j : ℕ) → j < 1024 → s.user_pgtable p j ≡ frame_entry p j user_flags

translate-slot :
    (frames p q i va o : ℕ) (s : Kernel)
    → s.cr3 ≡ p
    → LeadsTo frames s p i q
    → HasTable s q
    → va / 2 ^ 22 ≡ i
    → i < 1024
    → va % 2 ^ 22 ≡ o
    → translate (frames * 2 ^ 12) s va ≡ some (memory_of q + o)
unfolding pdx
translate-slot frames p q i va o s loaded leads table e lt f =
    translate-entries frames q user_flags va s (omega arith) (omega arith)
      (ap (λ c. s.user_pgdir c (va / 2 ^ 22 % 2 ^ 10)) loaded
        ∙ ap (s.user_pgdir p) (omega arith)
        ∙ leads)
      (table (ptx va) (ptx-lt va))
    ∙ ap (λ r. some (memory_of q + r)) f

-- The parent's view while the child's memory is filled.
MapsBoth-parent :
    (frames p d : ℕ) (u : Kernel)
    → u.cr3 ≡ p
    → LeadsTo frames u p 64 d
    → LeadsTo frames u p 32 p
    → HasTable u d
    → HasTable u p
    → MapsBoth (frames * 2 ^ 12) new_addr user_start (memory_of d) (memory_of p) u ptsize
MapsBoth-parent frames p d u loaded to_child to_self child self = record {
  to_there = λ o lt.
      translate-slot frames p d 64 (new_addr + o) o u loaded to_child child (omega arith)
        (omega arith) (omega arith);
  from_there = λ o lt.
      translate-slot frames p p 32 (user_start + o) o u loaded to_self self (omega arith)
        (omega arith) (omega arith);
}

-- What the child d has when the parent p was copied from the state s to the state t.
pub record HasCopy (frames p d : ℕ) (s t : Kernel) : Type 0 where
  pub bytes : (o : ℕ) → o < ptsize → t.ram (memory_of d + o) ≡ s.ram (memory_of p + o)
  pub others : (a : ℕ) → (a < memory_of d) ⊎ (memory_of d + ptsize ≤ a) → t.ram a ≡ s.ram a
  pub leads : LeadsTo frames t d 32 d
  pub table : HasTable t d
  pub processes : t.user_pcbs ≡ s.user_pcbs

-- The state after an entry of a directory was put.
abbrev pub dir_set : Kernel → ℕ → ℕ → ℕ → Kernel
dir_set s pid i e = record s {
  user_pgdir = update s.user_pgdir pid (update (s.user_pgdir pid) i e);
}

pub pgdir_put-ok :
    (pid i e : ℕ) (s : Kernel) → pid < upcb_num → pgdir_put pid i e s ≡ ok tt (dir_set s pid i e)
unfolding pgdir_put
pgdir_put-ok pid i e s h = rw (lt→ltb pid upcb_num h) refl

abbrev pub with_kernel : Kernel → ℕ → Kernel
with_kernel s pid =
    dir_set (dir_set s pid 0 (s.entry_pgdir 0)) pid (kernbase / 2 ^ 22)
      (s.entry_pgdir (kernbase / 2 ^ 22))

pub pcb_page_init-ok :
    (pid : ℕ) (s : Kernel) → pid < upcb_num → pcb_page_init pid s ≡ ok tt (with_kernel s pid)
unfolding pcb_page_init
pcb_page_init-ok pid s h =
    rw
      (
        pgdir_put-ok pid 0 (s.entry_pgdir 0) s h,
        pgdir_put-ok pid (kernbase / 2 ^ 22) (s.entry_pgdir (kernbase / 2 ^ 22))
            (dir_set s pid 0 (s.entry_pgdir 0)) h,
      )
      refl

abbrev pub directed : ℕ → Kernel → ℕ → Kernel
directed frames s d =
    dir_set s d (pdx user_start) (bit_or (table_address (frames * 2 ^ 12) d) user_flags)

alloc_page-Filled :
    (frames d : ℕ) (s : Kernel)
    → d < user_dir_num
    → Returns
        (λ _ t. Filled (directed frames s d) d user_flags 0 nptentries t)
        (alloc_page (frames * 2 ^ 12) user_start user_flags d s)
unfolding alloc_page
alloc_page-Filled frames d s h =
    rw
      (pgdir_put-ok d (pdx user_start) (bit_or (table_address (frames * 2 ^ 12) d) user_flags) s
        (omega (arith, h)))
      (Returns-bind (fill_pgtable-Filled nptentries 0 d user_flags (directed frames s d) h)
        (λ _ t f. returns f))

pdx-new_addr : pdx new_addr ≡ 64
unfolding pdx
pdx-new_addr = refl

pdx-user_start : pdx user_start ≡ 32
unfolding pdx
pdx-user_start = refl

-- While the copy runs, the parent's directory has both.
abbrev viewed : ℕ → ℕ → ℕ → Kernel → Kernel
viewed frames p d t =
    dir_set t p (pdx new_addr) (bit_or (table_address (frames * 2 ^ 12) d) user_flags)

module _ (frames p d : ℕ) (s t : Kernel) (ne : p ≢ d)
    (f : Filled (directed frames (with_kernel s d) d) d user_flags 0 nptentries t) where
  child_table : HasTable t d
  child_table j lt = f.entries j ∙ rw (lt→ltb j 1024 lt) (ground arith)

  viewed-MapsBoth :
      s.cr3 ≡ p
      → LeadsTo frames s p 32 p
      → HasTable s p
      → MapsBoth
          (frames * 2 ^ 12)
          new_addr
          user_start
          (memory_of d)
          (memory_of p)
          (viewed frames p d t)
          ptsize
  viewed-MapsBoth loaded leads table =
      MapsBoth-parent frames p d (viewed frames p d t) (ap (λ k. k.cr3) f.same ∙ loaded)
        (rw (eq→== p p refl, pdx-new_addr) refl)
        (rw (eq→== p p refl, pdx-new_addr)
          (ap (λ k. k.user_pgdir p 32) f.same ∙ rw (ne→== d p (λ e. ne (sym e))) leads))
        child_table (λ j lt. f.others p j ne ∙ table j lt)

  HasCopy-Copied :
      (v : Kernel)
      → Copied
          (frames * 2 ^ 12)
          new_addr
          user_start
          (memory_of d)
          (memory_of p)
          (viewed frames p d t)
          0
          ptsize
          v
      → HasCopy frames p d s (dir_set v p (pdx new_addr) 0)
  HasCopy-Copied v c = record {
    bytes = λ o lt. c.moved o (omega arith) lt ∙ ap (λ k. k.ram (memory_of p + o)) f.same;
    others = λ a q. c.kept a (omega (arith, q)) ∙ ap (λ k. k.ram a) f.same;
    leads = rw (ne→== p d ne) (
        ap (λ k. k.user_pgdir d 32) c.same
        ∙ rw (ne→== p d ne)
            (ap (λ k. k.user_pgdir d 32) f.same ∙ rw (eq→== d d refl, pdx-user_start) refl));
    table = λ j lt. ap (λ k. k.user_pgtable d j) c.same ∙ child_table j lt;
    processes = ap (λ k. k.user_pcbs) c.same ∙ ap (λ k. k.user_pcbs) f.same;
  }

pub pmap_init_and_copy-HasCopy :
    (frames p d : ℕ) (s : Kernel)
    → p < user_dir_num
    → d < user_dir_num
    → p ≢ d
    → s.cr3 ≡ p
    → LeadsTo frames s p 32 p
    → HasTable s p
    → Returns (λ _ t. HasCopy frames p d s t) (pmap_init_and_copy (frames * 2 ^ 12) d p s)
unfolding pmap_init_and_copy
pmap_init_and_copy-HasCopy frames p d s lp ld ne loaded leads table =
    rw (pcb_page_init-ok d s (omega (arith, ld))) (
      Returns-bind (alloc_page-Filled frames d (with_kernel s d) ld) (λ _ t f.
        rw
          (pgdir_put-ok p (pdx new_addr) (bit_or (table_address (frames * 2 ^ 12) d) user_flags) t
            (omega (arith, lp)))
          (Returns-bind
            (memcpy_virtual-Copied (frames * 2 ^ 12) new_addr user_start (memory_of d) (memory_of p)
              ptsize ptsize 0 (viewed frames p d t) (omega arith) (omega (arith, ne))
              (viewed-MapsBoth frames p d s t ne f loaded leads table))
            (λ _ v c.
              rw (pgdir_put-ok p (pdx new_addr) 0 v (omega (arith, lp)))
                (returns (HasCopy-Copied frames p d s t ne f v c))))))
