-- ===== src/Fs/Files/Session.antt =====
-- `fs_read` and `fs_lseek` to the start, against the file that a client sees.
use nju_oslab.Prelude.{
  ℕ, ◌+◌, ◌-◌, ◌%◌, ◌^◌, ◌≤◌, ◌<◌, ◌≡◌, ◌≢◌, refl, ap, ◌∙◌, sym, subst, true, false, Bool-cases,
  inl, inr, ltb, leb, lt→ltb, ltb→lt, ltb→ge, ◌==◌, eq→==, ne→==, ◌&&◌, if◌then◌else◌, arith, min,
  sub32, signed32, pos, ℤ, Returns, returns,
}
use nju_oslab.Fs.Layout.{entry_count, sectsize}
use nju_oslab.Fs.State.{Fs, Fd, garbage, is_dirty, fdpool_size, dir_at}
use nju_oslab.Fs.Transfer.{
  min_int, read_up_to, read_loop, fs_read, fs_lseek, fs_close, fs_flush, seek_set, seek_start,
}
use nju_oslab.Fs.Files.{OpenFile, amount, advanced, received, file_byte, IsReading, Sees, Views}
use nju_oslab.Fs.Files.Steps.{
  with_fd, with_fd_self, fd_at-with_fd, fd_put-with_fd, fd_buffer_flush-clean, fd_inode_flush-clean,
}
use nju_oslab.Fs.Files.Fetch.{SameFile}
use nju_oslab.Fs.Files.Loop.{Completes, read_loop-Completes}

-- The length that a read takes: as many bytes as there are.
min_int-amount :
    (len size o : ℕ)
    → size < 2 ^ 31
    → o ≤ size
    → min_int (pos len) (signed32 (sub32 size o)) ≡ pos (min len (size - o))
unfolding min_int
min_int-amount len size o small within =
    let e : sub32 size o ≡ size - o = omega (arith, within, small) in
    rw (e, lt→ltb (size - o) (2 ^ 31) (omega (arith, small)))
      (elim (Bool-cases (ltb len (size - o))) [
        | inl f ↦ rw f (ap pos (omega (arith, ltb→lt len (size - o) f)))
        | inr f ↦ rw f (ap pos (omega (arith, ltb→ge len (size - o) f)))
      ])

-- What is true of fd after an operation on it, and of every other descriptor as before.
pub record Moves (s : Fs) (fd : ℕ) (f : OpenFile) (t : Fs) : Type 0 where
  pub here : Views t fd f
  pub elsewhere : (k : ℕ) (g : OpenFile) → k ≢ fd → Views s k g → Views t k g

module _ (s : Fs) (fd : ℕ) (f : OpenFile) (in_pool : fd < fdpool_size)
    (v : Sees s.disk s.dir (s.fd_pool fd) f) where
  abbrev d : Fd
  d = s.fd_pool fd

  abbrev first : ℕ
  first = (s.dir d.index).inode_offset

  -- Another descriptor that belongs to the same file and reads on at o.
  moved-Sees :
      (e : Fd) (o : ℕ)
      → SameFile d e
      → o ≤ f.size
      → IsReading s.disk first o e
      → Sees s.disk s.dir e (record f { position = o })
  moved-Sees e o same le r = record {
    opened = same.opened ∙ v.opened;
    in_dir = rw same.index v.in_dir;
    same_size = rw same.index v.same_size;
    small = v.small;
    within = le;
    stored = rw same.index v.stored;
    same_byte = rw same.index v.same_byte;
    reading = subst (λ i. IsReading s.disk (s.dir i).inode_offset o e) (sym same.index) r;
  }

  moved-Moves :
      (e : Fd) (o : ℕ)
      → SameFile d e
      → o ≤ f.size
      → IsReading s.disk first o e
      → Moves s fd (record f { position = o }) (with_fd s fd e)
  moved-Moves e o same le r = record {
    here = (in_pool, rw (eq→== fd fd refl) (moved-Sees e o same le r));
    elsewhere = λ k g ne w. (w.0, rw (ne→== fd k (λ h. ne (sym h))) w.1);
  }

  fs_read-loop :
      (into : ℕ → ℕ) (len : ℕ)
      → fs_read fd into (pos len) (with_fd s fd d)
        ≡ read_loop (amount f len) fd (amount f len) 0 into (with_fd s fd d)
  unfolding fs_read dir_at read_up_to
  fs_read-loop into len =
      rw
        (
          fd_at-with_fd s fd in_pool d,
          v.opened,
          lt→ltb d.index entry_count v.in_dir,
          v.same_size,
          v.reading.at,
          min_int-amount len f.size f.position v.small v.within,
        )
        refl

  -- What a read leaves: its bytes, and the descriptor behind them.
  abbrev pub HasReceived : (ℕ → ℕ) → ℕ → (ℕ × (ℕ → ℕ)) → Fs → Type 0
  HasReceived into len r t =
      (r.0 ≡ amount f len)
      × ((j : ℕ) → r.1 j ≡ received f len into j)
      × Moves s fd (advanced f len) t

  from_start :
      (into : ℕ → ℕ) (len j : ℕ)
      → (if leb 0 j && ltb j (0 + amount f len)
          then file_byte s.disk first (f.position + (j - 0))
          else into j)
        ≡ received f len into j
  from_start into len j =
      let low : leb 0 j ≡ true = ground arith in
      let high : ltb j (0 + amount f len) ≡ ltb j (amount f len) = ground arith in
      let place : f.position + (j - 0) ≡ f.position + j = omega arith in
      let byte : file_byte s.disk first (f.position + (j - 0)) ≡ f.byte (f.position + j) =
        ap (file_byte s.disk first) place ∙ sym (v.same_byte (f.position + j)) in
      rw (low, high, byte) refl

  Completes-HasReceived :
      (into : ℕ → ℕ) (len : ℕ)
      → Completes s fd in_pool first f.size v.stored v.small
          (amount f len)
          (amount f len)
          0
          (amount f len)
          f.position
          into
          d
      → Returns
          (HasReceived into len)
          (read_loop (amount f len) fd (amount f len) 0 into (with_fd s fd d))
  Completes-HasReceived into len (e, new, run, same, r, got) = rw run (
      returns (
        refl,
        (λ j. got.bytes j ∙ from_start into len j),
        moved-Moves e (f.position + amount f len) same (omega (arith, v.within)) r,
      ))

  pub fs_read-HasReceived :
      (into : ℕ → ℕ) (len : ℕ) → Returns (HasReceived into len) (fs_read fd into (pos len) s)
  fs_read-HasReceived into len =
      subst (λ x. Returns (HasReceived into len) (fs_read fd into (pos len) x)) (with_fd_self s fd)
        (rw (fs_read-loop into len) (
          Completes-HasReceived into len (
            read_loop-Completes s fd in_pool first f.size v.stored v.small (amount f len)
              (amount f len) 0 (amount f len) f.position into d (omega arith) (omega arith)
              v.reading v.in_dir refl (omega (arith, v.within)))))

  not_dirty : is_dirty d.buffer_state ≡ false
  not_dirty =
      rw v.reading.state
        (elim (Bool-cases (f.position % sectsize == 0)) [ inl e ↦ rw e refl | inr e ↦ rw e refl ])

  rewinds :
      (o : ℤ)
      → Returns
          (λ _ t. Moves s fd (record f { position = 0 }) t)
          (fs_lseek fd o seek_set (with_fd s fd d))
  unfolding fs_lseek seek_start
  rewinds o =
      let flushed : Fd = record d { buffer_state = garbage } in
      let back : Fd = record flushed { offset = 0; inode_state = garbage } in
      rw
        (
          fd_at-with_fd s fd in_pool d,
          v.opened,
          fd_buffer_flush-clean s fd in_pool d not_dirty,
          fd_inode_flush-clean s fd in_pool flushed v.reading.clean,
          fd_at-with_fd s fd in_pool flushed,
          fd_put-with_fd s fd in_pool flushed back,
        )
        (returns (
          moved-Moves back 0 record { index = refl; opened = refl; writable = refl } (omega arith)
            record {
              at = refl;
              clean = refl;
              state = refl;
              block = λ ne. absurd (ne refl);
              inode = λ p. absurd (omega (arith, p));
            }))

  -- SEEK_SET goes back to the start, whatever the offset in the call.
  pub fs_lseek-start :
      (o : ℤ) → Returns (λ _ t. Moves s fd (record f { position = 0 }) t) (fs_lseek fd o seek_set s)
  fs_lseek-start o =
      subst
        (λ x. Returns (λ _ t. Moves s fd (record f { position = 0 }) t) (fs_lseek fd o seek_set x))
        (with_fd_self s fd) (rewinds o)

  closes : Returns (λ _ _. Unit {0}) (fs_close fd (with_fd s fd d))
  unfolding fs_close fs_flush
  closes =
      let shut : Fd = record d { opened = false } in
      rw
        (
          fd_at-with_fd s fd in_pool d,
          v.opened,
          fd_put-with_fd s fd in_pool d shut,
          fd_inode_flush-clean s fd in_pool shut v.reading.clean,
          fd_buffer_flush-clean s fd in_pool shut not_dirty,
        )
        (returns tt)

  -- A descriptor that reads is closed with nothing to write back but the directory and the bitmap.
  pub fs_close-Returns : Returns (λ _ _. Unit {0}) (fs_close fd s)
  fs_close-Returns =
      subst (λ x. Returns (λ _ _. Unit {0}) (fs_close fd x)) (with_fd_self s fd) closes
