-- ===== src/Start/First.antt =====
-- `userprog_load`: the first program, in the memory of the process 0.
use nju_oslab.Prelude.{
  ℕ, ◌+◌, ◌*◌, ◌%◌, ◌^◌, ◌≤◌, ◌<◌, ◌≡◌, ◌≢◌, refl, ap, ◌∙◌, sym, subst, ◌⊎◌, some, eq→==, lt→ltb,
  ok, update, pos, arith, bit_or, Returns, returns, Returns-bind, Returns-mono,
}
use nju_oslab.Mmu.{pdx, ptx, nptentries, pte_p, pte_w, pte_u}
use nju_oslab.Fs.State.{Fd}
use nju_oslab.Fs.Layout.{entry_count}
use nju_oslab.Fs.Open.{fs_open}
use nju_oslab.Fs.Open.Laws.{Named, IsFirstClosed}
use nju_oslab.Fs.Open.Existing.{fresh, with_fd, fs_open-existing}
use nju_oslab.Fs.Files.{OpenFile, IsStored, Views}
use nju_oslab.Fs.Files.Opened.{file_of, fresh-Sees}
use nju_oslab.Kernel.State.{Kernel, get_pid}
use nju_oslab.Kernel.Pmap.{kern_mem, table_address, pcb_page_init, alloc_page, pgdir_put, translate}
use nju_oslab.Kernel.Pmap.Maps.{fill_pgtable-Filled, translate-entries, ptx-lt}
use nju_oslab.Start.{Machine, elf_at, program_start, load_opened, userprog_load}
use nju_oslab.Start.Segment.{IsUser, IsMapped}
use nju_oslab.Start.Program.{memory, loaded}
use nju_oslab.Start.Parts.{on_kernel-Returns}
use nju_oslab.Start.Load.{header_of, IsProgram, load_from-HasProgram}

-- PTE_P | PTE_W | PTE_U
abbrev user_flags : ℕ
user_flags = bit_or (bit_or pte_p pte_w) pte_u

pdx-IsUser : (w : ℕ) → IsUser w → pdx program_start ≡ pdx w
unfolding pdx
pdx-IsUser w u = omega (arith, u.from, u.below)

module _ (frames : ℕ) where
  abbrev tables : ℕ
  tables = frames * 2 ^ 12

  -- The 4 MB are mapped once the directory of the process 0 is loaded, and the memory is untouched.
  pub record Maps0 (k t : Kernel) : Type 0 where
    pub mapped : IsMapped tables kern_mem (record t { cr3 = 0 })
    pub ram : t.ram ≡ k.ram

  alloc_page-Maps0 :
      (k : Kernel) → Returns (λ _ t. Maps0 k t) (alloc_page tables program_start user_flags 0 k)
  unfolding alloc_page pgdir_put
  alloc_page-Maps0 k =
      Returns-bind
        (fill_pgtable-Filled nptentries 0 0 user_flags
          (record k {
            user_pgdir = update k.user_pgdir 0 (
                update (k.user_pgdir 0) (pdx program_start)
                  (bit_or (table_address tables 0) user_flags));
          })
          (omega arith))
        (λ _ t f. returns record {
          mapped = λ w u.
              translate-entries frames 0 user_flags w (record t { cr3 = 0 }) (omega arith)
                (omega arith)
                (ap (λ x. x.user_pgdir 0 (pdx w)) f.same
                  ∙ rw (eq→== (pdx program_start) (pdx w) (pdx-IsUser w u)) refl)
                (f.entries (ptx w) ∙ rw (lt→ltb (ptx w) 1024 (ptx-lt w)) (ground arith));
          ram = ap (λ x. x.ram) f.same;
        })

  pcb_page_init-ram : (k : Kernel) → Returns (λ _ t. t.ram ≡ k.ram) (pcb_page_init 0 k)
  unfolding pcb_page_init pgdir_put
  pcb_page_init-ram k = returns refl

  -- What the loading leaves of the machine.
  pub record HasFirst (s : Machine) (f : OpenFile) (entry : ℕ) (t : Machine) : Type 0 where
    pub starts : entry ≡ (elf_at (header_of f)).e_entry
    pub mapped : IsMapped tables kern_mem t.kernel
    pub directory : t.kernel.cr3 ≡ 0
    pub there :
        (w : ℕ)
        → IsUser w
        → memory tables kern_mem t.kernel w
          ≡ loaded
              (header_of f)
              f
              (elf_at (header_of f)).e_phnum
              (elf_at (header_of f)).e_phoff
              w
              (memory tables kern_mem s.kernel w)
    pub others :
        (a : ℕ) → (a < kern_mem) ⊎ (kern_mem + 2 ^ 22 ≤ a) → t.kernel.ram a ≡ s.kernel.ram a

  -- For the current process 0, a file of the directory (not its first entry) that is on the
  -- disk with all its blocks and is a program, and j the first closed descriptor:
  -- `userprog_load` returns the entry of the file's header. The 4 MB of the process are mapped
  -- and have every segment that is to be loaded, later ones over earlier ones: the bytes of the
  -- file from its start on, whatever the segment's offset in the file, and zeroes behind them;
  -- the rest of the physical memory is untouched.
  pub userprog_load-HasFirst :
      (filename : ℕ → ℕ) (n j : ℕ) (s : Machine)
      → s.kernel.curr_pid ≡ 0
      → filename 0 ≢ 0
      → n < entry_count
      → Named filename s.fs.dir n
      → ((m : ℕ) → m < n → ¬ Named filename s.fs.dir m)
      → n ≢ 0
      → IsFirstClosed s.fs.fd_pool j
      → IsStored s.fs.disk (s.fs.dir n).inode_offset (s.fs.dir n).file_size
      → IsProgram (file_of s.fs n)
      → Returns (λ entry t. HasFirst s (file_of s.fs n) entry t) (userprog_load tables 0 filename s)
  unfolding userprog_load load_opened get_pid translate
  userprog_load-HasFirst filename n j s current ne lt named first nz free st prog =
      let d : Fd = fresh (s.fs.fd_pool j) n (s.fs.fd_pool j).writable in
      let f : OpenFile = file_of s.fs n in
      let opened : fs_open (some filename) 0 s.fs ≡ ok (pos j) (with_fd s.fs j d) =
        fs_open-existing filename 0 s.fs n j ne lt named first free nz in
      let views : Views (with_fd s.fs j d) j f = (
        free.in_pool,
        rw (eq→== j j refl)
            (fresh-Sees s.fs (s.fs.fd_pool j) n (s.fs.fd_pool j).writable lt prog.small st),
      ) in
      rw (eq→== s.kernel.curr_pid 0 current) (
        on_kernel-Returns (pcb_page_init 0) s (λ _ t. t.ram ≡ s.kernel.ram) _
          (pcb_page_init-ram s.kernel)
          (λ _ k same.
            on_kernel-Returns (alloc_page tables program_start user_flags 0)
              (record s { kernel = k }) (λ _ t. Maps0 k t) _ (alloc_page-Maps0 k)
              (λ _ k' maps. rw opened (
                Returns-mono
                  (load_from-HasProgram tables kern_mem
                    (record s { fs = with_fd s.fs j d; kernel = k' }) 0 j f prog views maps.mapped)
                  (λ entry t h. record {
                    starts = h.starts;
                    mapped = subst (IsMapped tables kern_mem) (sym h.same) maps.mapped;
                    directory = ap (λ (x : Kernel). x.cr3) h.same;
                    there = λ w u.
                        h.there w u
                        ∙ ap
                            (λ (r : ℕ → ℕ).
                              loaded (header_of f) f (elf_at (header_of f)).e_phnum
                                (elf_at (header_of f)).e_phoff w (r (kern_mem + w % 2 ^ 22)))
                            (maps.ram ∙ same);
                    others = λ a o. h.others a o ∙ ap (λ (r : ℕ → ℕ). r a) (maps.ram ∙ same);
                  })))))
