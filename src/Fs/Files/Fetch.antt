-- ===== src/Fs/Files/Fetch.antt =====
-- `fd_buffer_fetch` of a descriptor that reads brings in the block of its offset.
use nju_oslab.Prelude.{
  ℕ, zero, suc, ◌-◌, ◌/◌, ◌%◌, ◌<◌, ◌≡◌, ◌≢◌, refl, ap, ap₂, ◌∙◌, true, false, Bool-cases, inl, inr,
  ◌==◌, ==→eq, ==→ne, eq→==, if◌then◌else◌, ok, pure, ◌>>◌, arith,
}
use nju_oslab.Fs.Layout.{sectsize, entry_count, n_inode_datablock, inode_capacity, Sector, INode}
use nju_oslab.Fs.State.{Fs, FsM, Fd, garbage, useful, is_dirty, fdpool_size}
use nju_oslab.Fs.Cache.{fd_advance_inode, fd_load_block, fd_buffer_fetch}
use nju_oslab.Fs.Files.{data_sector, inode_at, inode_no, block_no, IsStored, IsReading}
use nju_oslab.Fs.Files.Steps.{
  with_fd, loaded, filled, fd_at-with_fd, fd_advance_inode-first, fd_advance_inode-next,
  fd_load_block-with_fd,
}

-- A descriptor that has the block of the byte at o.
pub record HasBlock (disk : ℕ → Sector) (first o : ℕ) (d : Fd) : Type 0 where
  pub at : d.offset ≡ o
  pub clean : is_dirty d.inode_state ≡ false
  pub state : d.buffer_state ≡ useful
  pub block : d.buffer ≡ data_sector disk (block_no disk first (o / sectsize))
  pub inode : d.inode ≡ inode_at disk (inode_no disk first (o / inode_capacity))

-- The descriptor's other fields stay.
pub record SameFile (d e : Fd) : Type 0 where
  pub index : e.index ≡ d.index
  pub opened : e.opened ≡ d.opened
  pub writable : e.writable ≡ d.writable

-- What a step of fd does: it returns, with a descriptor that meets P at fd.
abbrev pub Steps : (s : Fs) (fd : ℕ) (m : FsM (Unit {0})) (d : Fd) (P : Fd → Type 0) → Type 0
Steps s fd m d P = (e : Fd) × (m (with_fd s fd d) ≡ ok tt (with_fd s fd e)) × SameFile d e × P e

module _ (s : Fs) (fd : ℕ) (h : fd < fdpool_size) (first size : ℕ)
    (st : IsStored s.disk first size) where
  -- The inode of the offset is there: brought in, or held.
  abbrev HasInode : ℕ → Fd → Type 0
  HasInode o d =
      (d.offset ≡ o)
      × (is_dirty d.inode_state ≡ false)
      × (d.inode ≡ inode_at s.disk (inode_no s.disk first (o / inode_capacity)))

  advance-HasInode :
      (d : Fd) (o : ℕ)
      → IsReading s.disk first o d
      → o < size
      → d.index < entry_count
      → (s.dir d.index).inode_offset ≡ first
      → o % inode_capacity ≡ 0
      → Steps s fd (fd_advance_inode fd) d (HasInode o)
  unfolding inode_no
  advance-HasInode d zero r lt i f m = (
    loaded s fd h (record d { inode_state = garbage }) (s.dir d.index).inode_offset,
    fd_advance_inode-first s fd h d r.clean r.at i (rw f (st.started (omega (arith, lt)))),
    record { index = refl; opened = refl; writable = refl },
    (r.at, refl, ap (inode_at s.disk) f),
  )
  advance-HasInode d (suc o) r lt i f m =
      let k : ℕ = o / inode_capacity in
      let back : (suc o - 1) / inode_capacity ≡ k = omega arith in
      let up : suc k ≡ suc o / inode_capacity = omega (arith, m) in
      let next : d.inode.next ≡ inode_no s.disk first (suc k) =
        ap (λ (n : INode). n.next) (r.inode (omega arith))
        ∙ ap (λ j. (inode_at s.disk (inode_no s.disk first j)).next) back in
      (
        loaded s fd h (record d { inode_state = garbage }) d.inode.next,
        fd_advance_inode-next s fd h d r.clean (omega (arith, r.at)) (omega (arith, r.at, m))
            (rw next (st.chain k (omega (arith, m, lt)))),
        record { index = refl; opened = refl; writable = refl },
        (r.at, refl, ap (inode_at s.disk) (next ∙ ap (λ j. inode_no s.disk first j) up)),
      )

  load_block-HasBlock :
      (d : Fd) (o : ℕ)
      → HasInode o d
      → o < size
      → Steps s fd (fd_load_block fd) d (HasBlock s.disk first o)
  load_block-HasBlock d o has lt =
      let b : ℕ = o / sectsize in
      let which : d.inode.data_blocks (d.offset / sectsize % n_inode_datablock)
          ≡ block_no s.disk first b =
        ap₂ (λ (n : INode) (j : ℕ). n.data_blocks (j / sectsize % n_inode_datablock)) has.2 has.0
        ∙ ap (λ j. (inode_at s.disk (inode_no s.disk first j)).data_blocks (b % n_inode_datablock))
            {x = o / inode_capacity} {y = b / n_inode_datablock} (omega arith) in
      (
        filled s fd h d,
        fd_load_block-with_fd s fd h d (rw which (st.blocks b (omega (arith, lt)))),
        record { index = refl; opened = refl; writable = refl },
        record {
          at = has.0;
          clean = has.1;
          state = refl;
          block = ap (data_sector s.disk) which;
          inode = has.2;
        },
      )

  -- A step after another.
  Steps-then :
      (m n : FsM (Unit {0})) {d : Fd} {P Q : Fd → Type 0}
      → Steps s fd m d P
      → ((e : Fd) → SameFile d e → P e → Steps s fd n e Q)
      → Steps s fd (do m; n) d Q
  Steps-then m n {d} (e, run, same, p) next =
      let (e', run', same', q) = next e same p in
      (
        e',
        rw run run',
        record {
          index = same'.index ∙ same.index;
          opened = same'.opened ∙ same.opened;
          writable = same'.writable ∙ same.writable;
        },
        q,
      )

  HasInode-held :
      (d : Fd) (o : ℕ) → IsReading s.disk first o d → o % inode_capacity ≢ 0 → HasInode o d
  HasInode-held d o r ne =
      let same : (o - 1) / inode_capacity ≡ o / inode_capacity = omega (arith, ne) in
      (
        r.at,
        r.clean,
        r.inode (omega (arith, ne)) ∙ ap (λ k. inode_at s.disk (inode_no s.disk first k)) same,
      )

  fetch-garbage :
      (d : Fd)
      → d.buffer_state ≡ garbage
      → d.offset % sectsize ≡ 0
      → fd_buffer_fetch fd (with_fd s fd d)
        ≡ (do
          if d.offset % inode_capacity == 0 then fd_advance_inode fd else pure tt
          fd_load_block fd)
            (with_fd s fd d)
  unfolding fd_buffer_fetch
  fetch-garbage d e z = rw (fd_at-with_fd s fd h d, e, eq→== (d.offset % sectsize) 0 z) refl

  -- At the start of a block.
  fetch-HasBlock :
      (d : Fd) (o : ℕ)
      → IsReading s.disk first o d
      → o < size
      → d.index < entry_count
      → (s.dir d.index).inode_offset ≡ first
      → (o % sectsize == 0) ≡ true
      → Steps s fd (fd_buffer_fetch fd) d (HasBlock s.disk first o)
  fetch-HasBlock d o r lt i f z =
      let start : fd_buffer_fetch fd (with_fd s fd d)
          ≡ (do
            if d.offset % inode_capacity == 0 then fd_advance_inode fd else pure tt
            fd_load_block fd)
              (with_fd s fd d) =
        fetch-garbage d (r.state ∙ rw z refl) (rw r.at (==→eq (o % sectsize) 0 z)) in
      elim (Bool-cases (o % inode_capacity == 0)) [
        | inl m ↦
            let (e, run, same, p) =
              Steps-then (fd_advance_inode fd) (fd_load_block fd)
                (advance-HasInode d o r lt i f (==→eq (o % inode_capacity) 0 m))
                (λ e same p. load_block-HasBlock e o p lt) in
            (e, start ∙ rw (ap (λ v. v % inode_capacity == 0) r.at ∙ m) run, same, p)
        | inr m ↦
            let (e, run, same, p) =
              load_block-HasBlock d o (HasInode-held d o r (==→ne (o % inode_capacity) 0 m)) lt in
            (e, start ∙ rw (ap (λ v. v % inode_capacity == 0) r.at ∙ m) run, same, p)
      ]

  -- `fd_buffer_fetch` brings in the block of the offset, where the file has a byte.
  pub fd_buffer_fetch-HasBlock :
      (d : Fd) (o : ℕ)
      → IsReading s.disk first o d
      → o < size
      → d.index < entry_count
      → (s.dir d.index).inode_offset ≡ first
      → Steps s fd (fd_buffer_fetch fd) d (HasBlock s.disk first o)
  unfolding fd_buffer_fetch
  fd_buffer_fetch-HasBlock d o r lt i f = elim (Bool-cases (o % sectsize == 0)) [
    | inl z ↦ fetch-HasBlock d o r lt i f z
    | inr z ↦
        let ne : o % sectsize ≢ 0 = ==→ne (o % sectsize) 0 z in
        let held : d.buffer_state ≡ useful = r.state ∙ rw z refl in
        (
          d,
          rw (fd_at-with_fd s fd h d, held) refl,
          record { index = refl; opened = refl; writable = refl },
          record {
            at = r.at;
            clean = r.clean;
            state = held;
            block = r.block ne;
            inode = (HasInode-held d o r (omega (arith, ne))).2;
          },
        )
  ]
