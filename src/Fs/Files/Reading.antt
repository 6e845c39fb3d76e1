-- ===== src/Fs/Files/Reading.antt =====
-- The loop of `fs_read` over a file on the disk.
use nju_oslab.Prelude.{
  ℕ, ◌+◌, ◌-◌, ◌/◌, ◌%◌, ◌^◌, ◌≤◌, ◌<◌, ◌≡◌, refl, ap, ◌∙◌, ◌&&◌, Bool-cases, inl, inr, ltb, leb,
  ◌==◌, if◌then◌else◌, copy, ok, ap₂, pure, Run, arith, add32,
}
use nju_oslab.Fs.Layout.{sectsize, entry_count, inode_capacity, Sector}
use nju_oslab.Fs.State.{Fs, Fd, garbage, useful, fdpool_size}
use nju_oslab.Fs.Cache.{fd_buffer_fetch, fd_buffer_flush}
use nju_oslab.Fs.Transfer.{chunk, read_round}
use nju_oslab.Fs.Files.{data_sector, inode_at, inode_no, block_no, file_byte, IsStored, IsReading}
use nju_oslab.Fs.Files.Steps.{with_fd, fd_at-with_fd, fd_put-with_fd, fd_buffer_flush-clean}
use nju_oslab.Fs.Files.Fetch.{HasBlock, SameFile, fd_buffer_fetch-HasBlock}

-- The bytes of the file from o on, at the places done to done + n of a buffer.
pub record Received (disk : ℕ → Sector) (first o done n : ℕ) (old new : ℕ → ℕ) : Type 0 where
  pub bytes :
      (j : ℕ)
      → new j
        ≡ (if leb done j && ltb j (done + n) then file_byte disk first (o + (j - done)) else old j)

module _ (s : Fs) (fd : ℕ) (h : fd < fdpool_size) (first size : ℕ) (st : IsStored s.disk first size)
    (small : size < 2 ^ 31) where
  -- The descriptor behind the bytes that a round moved.
  abbrev moved : Fd → ℕ → Fd
  moved d count = record d {
    offset = add32 d.offset count;
    buffer_state = if add32 d.offset count % sectsize == 0 then garbage else d.buffer_state;
  }

  moved-IsReading :
      (d : Fd) (o count : ℕ)
      → HasBlock s.disk first o d
      → 0 < count
      → count ≤ sectsize - o % sectsize
      → o + count ≤ size
      → IsReading s.disk first (o + count) (moved d count)
  moved-IsReading d o count b p q lt =
      let at : add32 d.offset count ≡ o + count = omega (arith, b.at, small, lt) in
      let before : o / inode_capacity ≡ (o + count - 1) / inode_capacity = omega (arith, p, q) in
      record {
        at = at;
        clean = b.clean;
        state = rw (at, b.state) refl;
        block = λ ne.
            let beside : o / sectsize ≡ (o + count) / sectsize = omega (arith, p, q, ne) in
            b.block ∙ ap (λ k. data_sector s.disk (block_no s.disk first k)) beside;
        inode = λ _. b.inode ∙ ap (λ k. inode_at s.disk (inode_no s.disk first k)) before;
      }

  -- The end of a round, on the descriptor with its block.
  abbrev passed : Fd → ℕ → Run Fs (Unit {0})
  passed d count =
      (if add32 d.offset count % sectsize == 0 then fd_buffer_flush fd else pure tt)
        (with_fd s fd (record d { offset = add32 d.offset count }))

  passed-moved :
      (d : Fd) (count : ℕ)
      → d.buffer_state ≡ useful
      → passed d count ≡ ok tt (with_fd s fd (moved d count))
  passed-moved d count u = elim (Bool-cases (add32 d.offset count % sectsize == 0)) [
    | inl z ↦
        rw z (fd_buffer_flush-clean s fd h (record d { offset = add32 d.offset count }) (rw u refl))
    | inr z ↦ rw z refl
  ]

  -- What the round copies.
  abbrev copied : Fd → ℕ → ℕ → (ℕ → ℕ) → ℕ → ℕ
  copied d done count buf = copy buf done d.buffer (d.offset % sectsize) count

  read_round-moved :
      (d e : Fd) (len done : ℕ) (buf : ℕ → ℕ)
      → fd_buffer_fetch fd (with_fd s fd d) ≡ ok tt (with_fd s fd e)
      → e.buffer_state ≡ useful
      → read_round fd len done buf (with_fd s fd d)
        ≡ ok
            (copied e done (chunk e.offset len done) buf)
            (with_fd s fd (moved e (chunk e.offset len done)))
  unfolding read_round
  read_round-moved d e len done buf run u =
      let c : ℕ = chunk e.offset len done in
      rw
        (
          run,
          fd_at-with_fd s fd h e,
          fd_put-with_fd s fd h e (record e { offset = add32 e.offset c }),
          passed-moved e c u,
        )
        refl

  copied-Received :
      (d : Fd) (o done count : ℕ) (buf : ℕ → ℕ)
      → HasBlock s.disk first o d
      → count ≤ sectsize - o % sectsize
      → Received s.disk first o done count buf (copied d done count buf)
  copied-Received d o done count buf b q = record {
    bytes = λ j. elim (Bool-cases (leb done j && ltb j (done + count))) [
      | inl e ↦
          let inside : j - done < count = ground arith in
          let block : o / sectsize ≡ (o + (j - done)) / sectsize = omega (arith, inside, q) in
          let place : o % sectsize + (j - done) ≡ (o + (j - done)) % sectsize =
            omega (arith, inside, q) in
          rw (e, b.at, b.block)
            (ap₂ (λ k i. data_sector s.disk (block_no s.disk first k) i) block place)
      | inr e ↦ rw e refl
    ];
  }

  pub read_round-Received :
      (d : Fd) (o len done : ℕ) (buf : ℕ → ℕ)
      → IsReading s.disk first o d
      → d.index < entry_count
      → (s.dir d.index).inode_offset ≡ first
      → done < len
      → o + (len - done) ≤ size
      → (e : Fd) × (new : ℕ → ℕ) × (read_round fd len done buf (with_fd s fd d)
          ≡ ok new (with_fd s fd e))
        × SameFile d e
        × IsReading s.disk first (o + chunk o len done) e
        × Received s.disk first o done (chunk o len done) buf new
  read_round-Received d o len done buf r i f lt fits =
      let (e, run, same, b) =
        fd_buffer_fetch-HasBlock s fd h first size st d o r (omega (arith, fits, lt)) i f in
      let c : ℕ = chunk o len done in
      (
        moved e c,
        copied e done c buf,
        read_round-moved d e len done buf run b.state ∙ rw b.at refl,
        record { index = same.index; opened = same.opened; writable = same.writable },
        moved-IsReading e o c b (omega (arith, lt)) (omega arith) (omega (arith, fits)),
        copied-Received e o done c buf b (omega arith),
      )
