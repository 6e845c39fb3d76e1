-- ===== src/Start/Program.antt =====
-- A program in the memory of its process.
use nju_oslab.Prelude.{
  ℕ, zero, suc, ◌+◌, ◌-◌, ◌%◌, ◌^◌, ◌≤◌, ◌<◌, ◌≡◌, refl, ap, ◌∙◌, sym, subst, true, false,
  Bool-cases, inl, inr, ◌⊎◌, ◌&&◌, ltb, leb, eq→==, lt→ltb, if◌then◌else◌, pure, pos, arith, add32,
  sub32, signed32, Returns, returns, Returns-bind, Returns-mono,
}
use nju_oslab.Fs.Layout.{Sector}
use nju_oslab.Fs.Transfer.{fs_read, fs_lseek, seek_set}
use nju_oslab.Fs.Files.{OpenFile, amount, Views}
use nju_oslab.Fs.Files.Session.{Moves, HasReceived, fs_read-HasReceived, fs_lseek-start}
use nju_oslab.Kernel.State.{Kernel}
use nju_oslab.Kernel.Pmap.{user_start, translate}
use nju_oslab.Start.{
  Machine, Proghdr, proghdr_at, sizeof_proghdr, store_bytes, load_segment, wanted, load_segments,
}
use nju_oslab.Start.Parts.{on_fs-Returns, on_kernel-Returns, on_kernel-last}
use nju_oslab.Start.Segment.{IsUser, IsMapped, Stored, store_bytes-Stored}

-- The memory of a process after a segment: bytes of the file from its start on, whatever the
-- segment's offset in it, then zeroes.
abbrev pub placed : OpenFile → Proghdr → (w old : ℕ) → ℕ
placed f ph w old =
    if leb ph.p_pa w && ltb w (ph.p_pa + ph.p_filesz)
    then f.byte (w - ph.p_pa)
    else if leb ph.p_pa w && ltb w (ph.p_pa + ph.p_memsz)
    then 0
    else old

-- A segment that lies in the 4 MB of the process, with its bytes in the file.
pub record Fits (f : OpenFile) (ph : Proghdr) : Type 0 where
  pub from : user_start ≤ ph.p_pa
  pub below : ph.p_pa + ph.p_memsz ≤ user_start + 2 ^ 22
  pub filled : ph.p_filesz ≤ ph.p_memsz
  pub in_file : ph.p_filesz ≤ f.size

-- A byte of the memory after n headers, from the offset o of the header block on.
pub loaded : (header : Sector) (f : OpenFile) (n o w old : ℕ) → ℕ
loaded header f zero o w old = old
loaded header f (suc n) o w old =
    let ph = proghdr_at header o in
    loaded header f n (o + sizeof_proghdr) w (if wanted ph then placed f ph w old else old)

-- Each header that is loaded fits.
abbrev pub AllFit : (header : Sector) (f : OpenFile) (n o : ℕ) → Type 0
AllFit header f zero o = Unit {0}
AllFit header f (suc n) o =
    (wanted (proghdr_at header o) ≡ true → Fits f (proghdr_at header o))
    × AllFit header f n (o + sizeof_proghdr)

module _ (tables base : ℕ) where
  abbrev pub memory : Kernel → ℕ → ℕ
  memory k w = k.ram (base + w % 2 ^ 22)

  -- The machine t after loading into s, with the memory that is to be.
  pub record HasLoaded (s : Machine) (fd : ℕ) (f : OpenFile) (m : ℕ → ℕ) (t : Machine)
      : Type 0 where
    pub views : (p : ℕ) × Views t.fs fd (record f { position = p })
    pub same : t.kernel ≡ record s.kernel { ram = t.kernel.ram }
    pub there : (w : ℕ) → IsUser w → memory t.kernel w ≡ m w
    pub others : (a : ℕ) → (a < base) ⊎ (base + 2 ^ 22 ≤ a) → t.kernel.ram a ≡ s.kernel.ram a

  -- The zeroes go behind the bytes.
  in_order :
      (f : OpenFile) (ph : Proghdr) (bytes m : ℕ → ℕ) (w : ℕ)
      → Fits f ph
      → ((j : ℕ) → j < ph.p_filesz → bytes j ≡ f.byte j)
      → (if leb (ph.p_pa + ph.p_filesz) w && ltb w (ph.p_pa + ph.p_memsz)
          then 0
          else if leb ph.p_pa w && ltb w (ph.p_pa + ph.p_filesz)
          then bytes (w - ph.p_pa)
          else m w)
        ≡ placed f ph w (m w)
  in_order f ph bytes m w fits same =
      elim (Bool-cases (leb ph.p_pa w && ltb w (ph.p_pa + ph.p_filesz))) [
        | inl e ↦
            let before : (leb (ph.p_pa + ph.p_filesz) w && ltb w (ph.p_pa + ph.p_memsz)) ≡ false =
              ground (arith, e) in
            let inside : w - ph.p_pa < ph.p_filesz = ground (arith, e) in
            rw (e, before) (same (w - ph.p_pa) inside)
        | inr e ↦
            let behind : (leb (ph.p_pa + ph.p_filesz) w && ltb w (ph.p_pa + ph.p_memsz))
                ≡ (leb ph.p_pa w && ltb w (ph.p_pa + ph.p_memsz)) =
              ground (arith, e, fits.filled) in
            rw (e, behind) refl
      ]

  -- The two stores of a segment.
  placed-Stored :
      (f : OpenFile) (ph : Proghdr) (n : ℕ) (bytes : ℕ → ℕ) (k t u : Kernel)
      → Fits f ph
      → n ≡ ph.p_filesz
      → ((j : ℕ) → j < ph.p_filesz → bytes j ≡ f.byte j)
      → Stored tables base k n 0 ph.p_pa bytes t
      → Stored tables base t (sub32 ph.p_memsz ph.p_filesz) 0 (add32 ph.p_pa ph.p_filesz) (λ _. 0) u
      → (w : ℕ) → IsUser w
      → memory u w ≡ placed f ph w (memory k w)
  placed-Stored f ph n bytes k t u fits e same a b w v =
      let end_at : add32 ph.p_pa ph.p_filesz ≡ ph.p_pa + ph.p_filesz =
        omega (arith, fits.below, fits.filled) in
      let rest : sub32 ph.p_memsz ph.p_filesz ≡ ph.p_memsz - ph.p_filesz =
        omega (arith, fits.below, fits.filled) in
      let second : (leb (add32 ph.p_pa ph.p_filesz + 0) w
            && ltb w (add32 ph.p_pa ph.p_filesz + 0 + sub32 ph.p_memsz ph.p_filesz))
          ≡ (leb (ph.p_pa + ph.p_filesz) w && ltb w (ph.p_pa + ph.p_memsz)) =
        ground (arith, end_at, rest, fits.filled) in
      let first : (leb (ph.p_pa + 0) w && ltb w (ph.p_pa + 0 + n))
          ≡ (leb ph.p_pa w && ltb w (ph.p_pa + ph.p_filesz)) =
        ground (arith, e) in
      b.there w v ∙ rw (second, a.there w v, first) (in_order f ph bytes (memory k) w fits same)

  load_segment-HasLoaded :
      (s : Machine) (fd p : ℕ) (f : OpenFile) (ph : Proghdr)
      → f.size < 2 ^ 31
      → Views s.fs fd (record f { position = p })
      → IsMapped tables base s.kernel
      → Fits f ph
      → Returns
          (λ _ t. HasLoaded s fd f (λ w. placed f ph w (memory s.kernel w)) t)
          (load_segment tables fd ph s)
  unfolding load_segment translate
  load_segment-HasLoaded s fd p f ph small v mapped fits =
      let start : OpenFile = record f { position = 0 } in
      let count : amount start ph.p_filesz ≡ ph.p_filesz = omega (arith, fits.in_file) in
      let length_is : signed32 ph.p_filesz ≡ pos ph.p_filesz =
        rw (lt→ltb ph.p_filesz (2 ^ 31) (omega (arith, fits.in_file, small))) refl in
      on_fs-Returns (fs_lseek fd (signed32 ph.p_offset) seek_set) s (λ _ t. Moves s.fs fd start t) _
        (fs_lseek-start s.fs fd (record f { position = p }) v.0 v.1 (signed32 ph.p_offset))
        (λ _ t m.
          on_fs-Returns (fs_read fd (λ _. 0) (signed32 ph.p_filesz)) (record s { fs = t })
            (HasReceived t fd start m.here.0 m.here.1 (λ _. 0) ph.p_filesz) _
            (rw length_is (fs_read-HasReceived t fd start m.here.0 m.here.1 (λ _. 0) ph.p_filesz))
            (λ r t' got.
              let all_read : r.0 ≡ ph.p_filesz = got.0 ∙ count in
              on_kernel-Returns (store_bytes tables r.0 0 ph.p_pa r.1) (record s { fs = t' })
                (λ _ k. Stored tables base s.kernel r.0 0 ph.p_pa r.1 k) _
                (store_bytes-Stored tables base r.0 0 ph.p_pa r.1 s.kernel mapped fits.from
                  (omega (arith, all_read, fits.below, fits.filled)))
                (λ _ k a. rw (eq→== r.0 ph.p_filesz all_read) (
                  on_kernel-last
                    (store_bytes tables (sub32 ph.p_memsz ph.p_filesz) 0 (add32 ph.p_pa ph.p_filesz)
                      (λ _. 0))
                    (record s { fs = t'; kernel = k })
                    (λ _ u.
                      Stored tables base k (sub32 ph.p_memsz ph.p_filesz) 0
                        (add32 ph.p_pa ph.p_filesz) (λ _. 0) u)
                    (store_bytes-Stored tables base (sub32 ph.p_memsz ph.p_filesz) 0
                      (add32 ph.p_pa ph.p_filesz) (λ _. 0) k
                      (subst (IsMapped tables base) (sym a.same) mapped)
                      (omega (arith, fits.from, fits.below, fits.filled))
                      (omega (arith, fits.below, fits.filled)))
                    (λ _ u b. record {
                      views = (
                        ph.p_filesz,
                        subst (λ p. Views t' fd (record f { position = p }))
                            (ap (λ n. 0 + n) count ∙ omega arith) got.2.here,
                      );
                      same = b.same ∙ ap (λ (x : Kernel). record x { ram = u.ram }) a.same;
                      there =
                          placed-Stored f ph r.0 r.1 s.kernel k u fits all_read
                            (λ j lt.
                              got.1 j
                              ∙ rw (count, lt→ltb j ph.p_filesz lt) (ap f.byte (omega arith)))
                            a b;
                      others = λ x h. b.others x h ∙ a.others x h;
                    })))))

  HasLoaded-refl :
      (s : Machine) (fd p : ℕ) (f : OpenFile)
      → Views s.fs fd (record f { position = p })
      → HasLoaded s fd f (memory s.kernel) s
  HasLoaded-refl s fd p f v = record {
    views = (p, v);
    same = refl;
    there = λ w u. refl;
    others = λ a h. refl;
  }

  HasLoaded-trans :
      (s t u : Machine) (fd : ℕ) (f : OpenFile) (g h : ℕ → ℕ → ℕ)
      → HasLoaded s fd f (λ w. g w (memory s.kernel w)) t
      → HasLoaded t fd f (λ w. h w (memory t.kernel w)) u
      → HasLoaded s fd f (λ w. h w (g w (memory s.kernel w))) u
  HasLoaded-trans s t u fd f g h a b = record {
    views = b.views;
    same = b.same ∙ ap (λ (x : Kernel). record x { ram = u.kernel.ram }) a.same;
    there = λ w v. b.there w v ∙ ap (h w) (a.there w v);
    others = λ x e. b.others x e ∙ a.others x e;
  }

  one_header :
      (s : Machine) (fd p : ℕ) (f : OpenFile) (ph : Proghdr)
      → f.size < 2 ^ 31
      → Views s.fs fd (record f { position = p })
      → IsMapped tables base s.kernel
      → (wanted ph ≡ true → Fits f ph)
      → Returns
          (λ _ t.
            HasLoaded s fd f
              (λ w. if wanted ph then placed f ph w (memory s.kernel w) else memory s.kernel w)
              t)
          ((if wanted ph then load_segment tables fd ph else pure tt) s)
  one_header s fd p f ph small v mapped fits = elim (Bool-cases (wanted ph)) [
    | inl e ↦ rw e (load_segment-HasLoaded s fd p f ph small v mapped (fits e))
    | inr e ↦ rw e (returns (HasLoaded-refl s fd p f v))
  ]

  pub load_segments-HasLoaded :
      (n o : ℕ) (header : Sector) (s : Machine) (fd p : ℕ) (f : OpenFile)
      → f.size < 2 ^ 31
      → Views s.fs fd (record f { position = p })
      → IsMapped tables base s.kernel
      → AllFit header f n o
      → Returns
          (λ _ t. HasLoaded s fd f (λ w. loaded header f n o w (memory s.kernel w)) t)
          (load_segments tables n o header fd s)
  unfolding load_segments loaded translate
  load_segments-HasLoaded zero o header s fd p f small v mapped fits =
      returns (HasLoaded-refl s fd p f v)
  load_segments-HasLoaded (suc n) o header s fd p f small v mapped fits =
      let ph = proghdr_at header o in
      Returns-bind (one_header s fd p f ph small v mapped fits.0) (λ _ t a.
        Returns-mono
          (load_segments-HasLoaded n (o + sizeof_proghdr) header t fd a.views.0 f small a.views.1
            (subst (IsMapped tables base) (sym a.same) mapped) fits.1)
          (λ _ u b.
            HasLoaded-trans s t u fd f (λ w x. if wanted ph then placed f ph w x else x)
              (loaded header f n (o + sizeof_proghdr)) a b))
