-- ===== src/Fs/Files/Refine.antt =====
-- Clients that read through several descriptors, in any order.
use nju_oslab.Prelude.{
  ℕ, ◌≡◌, refl, ap₂, sym, subst, true, Bool, Bool-cases, inl, inr, ◌==◌, ==→eq, ==→ne, pure, ◌>>=◌,
  ◌>>◌, update, List, [], ◌∷◌, fun_ext, pos, Returns, returns, Returns-bind,
}
use nju_oslab.Fs.State.{Fs, FsM}
use nju_oslab.Fs.Transfer.{fs_read, fs_lseek, seek_set}
use nju_oslab.Fs.Files.{OpenFile, amount, advanced, received, Views}
use nju_oslab.Fs.Files.Session.{Moves, fs_read-HasReceived, fs_lseek-start}

pub data Call : Type 0 where
  read : ℕ → ℕ → Call
  rewind : ℕ → Call

-- The number of bytes that a read gives, and the client's buffer after it.
abbrev pub Reply : Type 0
Reply = ℕ × (ℕ → ℕ)

-- The calls go to descriptors of the set `open`.
abbrev pub OnlyOn : (ℕ → Bool) → List Call → Type 0
OnlyOn open_set [] = Unit {0}
OnlyOn open_set (read fd len ∷ calls) = (open_set fd ≡ true) × OnlyOn open_set calls
OnlyOn open_set (rewind fd ∷ calls) = (open_set fd ≡ true) × OnlyOn open_set calls

-- The code: each read goes to a buffer that starts as `into`.
module _ (into : ℕ → ℕ) where
  unfoldable pub perform : List Call → FsM (List Reply)
  perform [] = pure []
  perform (read fd len ∷ calls) = do
    r ← fs_read fd into (pos len)
    replies ← perform calls
    pure (r ∷ replies)
  perform (rewind fd ∷ calls) = do fs_lseek fd (pos 0) seek_set; perform calls

  -- The files that the clients think of.
  unfoldable pub expected : (ℕ → OpenFile) → List Call → List Reply
  expected files [] = []
  expected files (read fd len ∷ calls) =
      (amount (files fd) len, received (files fd) len into)
      ∷ expected (update files fd (advanced (files fd) len)) calls
  expected files (rewind fd ∷ calls) =
      expected (update files fd (record (files fd) { position = 0 })) calls

  -- Every descriptor of the set is open on its file.
  abbrev pub AllViews : (ℕ → Bool) → Fs → (ℕ → OpenFile) → Type 0
  AllViews open_set s files = (fd : ℕ) → open_set fd ≡ true → Views s fd (files fd)

  AllViews-Moves :
      (open_set : ℕ → Bool) (s t : Fs) (files : ℕ → OpenFile) (fd : ℕ) (f : OpenFile)
      → AllViews open_set s files
      → Moves s fd f t
      → AllViews open_set t (update files fd f)
  AllViews-Moves open_set s t files fd f all m k on = elim (Bool-cases (fd == k)) [
    | inl e ↦ rw e (subst (λ j. Views t j f) (==→eq fd k e) m.here)
    | inr e ↦ rw e (m.elsewhere k (files k) (λ h. ==→ne fd k e (sym h)) (all k on))
  ]

  -- Let each descriptor of a set be open on a file below 2 ^ 31 bytes that is on the disk with
  -- all its blocks and inodes, at an offset that is not behind its end, in the state that
  -- `fs_open` and `fs_read` leave: there is no inode to write back; at a multiple of 512 the
  -- buffer counts as garbage, at any other offset it is useful and holds the block of the
  -- offset; and behind the offset 0 the inode in memory is the one of the byte before. Then
  -- `fs_read` and `fs_lseek` to the start, called through these descriptors in any order and
  -- for any lengths, return what an abstract file gives: as many bytes as there are from the
  -- position on, up to the length, each with its value, and nothing else of the buffer changed,
  -- across blocks and inodes.
  pub perform_refines :
      (open_set : ℕ → Bool) (calls : List Call) (s : Fs) (files : ℕ → OpenFile)
      → AllViews open_set s files
      → OnlyOn open_set calls
      → Returns (λ replies _. replies ≡ expected files calls) (perform calls s)
  unfolding perform expected
  perform_refines open_set [] s files all on = returns refl
  perform_refines open_set (read fd len ∷ calls) s files all on =
      let (in_pool, sees) = all fd on.0 in
      Returns-bind (fs_read-HasReceived s fd (files fd) in_pool sees into len) (λ r t got.
        Returns-bind
          (perform_refines open_set calls t (update files fd (advanced (files fd) len))
            (AllViews-Moves open_set s t files fd (advanced (files fd) len) all got.2) on.1)
          (λ replies _ e. returns (
            ap₂ (λ (x : Reply) (xs : List Reply). x ∷ xs)
              (ap₂ (λ (n : ℕ) (b : ℕ → ℕ). (n, b)) got.0 (fun_ext got.1)) e)))
  perform_refines open_set (rewind fd ∷ calls) s files all on =
      let (in_pool, sees) = all fd on.0 in
      Returns-bind (fs_lseek-start s fd (files fd) in_pool sees (pos 0)) (λ _ t m.
        perform_refines open_set calls t (update files fd (record (files fd) { position = 0 }))
          (AllViews-Moves open_set s t files fd (record (files fd) { position = 0 }) all m) on.1)
