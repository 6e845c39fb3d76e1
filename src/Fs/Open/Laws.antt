-- ===== src/Fs/Open/Laws.antt =====
-- `fs_open`, branch by branch.
use nju_oslab.Prelude.{
  ℕ, zero, suc, ◌+◌, ◌≤◌, ◌<◌, ◌≡◌, ◌≢◌, refl, ap, inl, inr, true, false, Option, none, some,
  Bool-cases, ◌==◌, ==→eq, ==→ne, eq→==, ne→==, ok, pure, ◌>>=◌, and_then, arith,
}
use nju_oslab.LibString.{strncmp}
use nju_oslab.Fs.Layout.{filename_length, entry_count, Dir}
use nju_oslab.Fs.State.{Fs, Fd, fdpool_size}
use nju_oslab.Fs.Open.{first_closed, open_entry, finished, returned, note_slot, scan_dir}

-- The name of the entry i is the one asked for.
abbrev pub Named : (ℕ → ℕ) → Dir → ℕ → Type 0
Named path dir i = strncmp path (dir i).file_name filename_length ≡ 0

-- The first descriptor from 0 on that is not open.
pub record IsFirstClosed (pool : ℕ → Fd) (j : ℕ) : Type 0 where
  pub in_pool : j < fdpool_size
  pub closed : (pool j).opened ≡ false
  pub before : (m : ℕ) → m < j → (pool m).opened ≡ true

pub first_closed-some :
    (pool : ℕ → Fd) (n i j : ℕ)
    → i ≤ j
    → j < i + n
    → (pool j).opened ≡ false
    → ((m : ℕ) → m < j → (pool m).opened ≡ true)
    → first_closed pool n i ≡ some j
unfolding first_closed
first_closed-some pool zero i j a b c h = absurd (omega arith)
first_closed-some pool (suc n) i j a b c h = elim (Bool-cases (i == j)) [
  | inl here ↦ let e : i ≡ j = ==→eq i j here in rw (e, c) refl
  | inr later ↦
      rw (h i (omega (arith, ==→ne i j later)))
        (first_closed-some pool n (i + 1) j (omega (arith, ==→ne i j later)) (omega arith) c h)
]

-- The first slot with no name, as the loop notes it.
pub free_slot : Dir → ℕ → ℕ → Option ℕ → Option ℕ
free_slot dir zero i slot = slot
free_slot dir (suc n) i slot = free_slot dir n (i + 1) (note_slot (dir i) i slot)

free_slot-kept : (dir : Dir) (n i k : ℕ) → free_slot dir n i (some k) ≡ some k
unfolding free_slot note_slot
free_slot-kept dir zero i k = refl
free_slot-kept dir (suc n) i k = free_slot-kept dir n (i + 1) k

-- The first entry from 0 on whose name is empty.
pub record IsFirstFree (dir : Dir) (k : ℕ) : Type 0 where
  pub in_dir : k < entry_count
  pub free : (dir k).file_name 0 ≡ 0
  pub used : (m : ℕ) → m < k → (dir m).file_name 0 ≢ 0

pub free_slot-some :
    (dir : Dir) (n i k : ℕ)
    → i ≤ k
    → k < i + n
    → (dir k).file_name 0 ≡ 0
    → ((m : ℕ) → m < k → (dir m).file_name 0 ≢ 0)
    → free_slot dir n i none ≡ some k
unfolding free_slot note_slot
free_slot-some dir zero i k a b c h = absurd (omega arith)
free_slot-some dir (suc n) i k a b c h = elim (Bool-cases (i == k)) [
  | inl here ↦
      let e : i ≡ k = ==→eq i k here in
      rw (e, eq→== ((dir k).file_name 0) 0 c) (free_slot-kept dir n (k + 1) k)
  | inr later ↦
      rw (ne→== ((dir i).file_name 0) 0 (h i (omega (arith, ==→ne i k later))))
        (free_slot-some dir n (i + 1) k (omega (arith, ==→ne i k later)) (omega arith) c h)
]

pub free_slot-none :
    (dir : Dir) (n i : ℕ)
    → ((m : ℕ) → m < i + n → (dir m).file_name 0 ≢ 0)
    → free_slot dir n i none ≡ none
unfolding free_slot note_slot
free_slot-none dir zero i h = refl
free_slot-none dir (suc n) i h =
    rw (ne→== ((dir i).file_name 0) 0 (h i (omega arith)))
      (free_slot-none dir n (i + 1) (λ m p. h m (omega arith)))

-- Where no entry has the name, the loop changes nothing and ends with the free slot.
pub scan_dir-miss :
    (path : ℕ → ℕ) (flags n i : ℕ) (slot : Option ℕ) (s : Fs)
    → ((m : ℕ) → m < i + n → ¬ Named path s.dir m)
    → scan_dir path flags n i slot s ≡ ok (finished (free_slot s.dir n i slot)) s
unfolding scan_dir free_slot
scan_dir-miss path flags zero i slot s h = refl
scan_dir-miss path flags (suc n) i slot s h =
    rw (ne→== (strncmp path (s.dir i).file_name filename_length) 0 (h i (omega arith)))
      (scan_dir-miss path flags n (i + 1) (note_slot (s.dir i) i slot) s (λ m p. h m (omega arith)))

-- At the first entry with the name the loop opens it, if a descriptor is free.
pub scan_dir-hit :
    (path : ℕ → ℕ) (flags n i : ℕ) (slot : Option ℕ) (s : Fs) (k j : ℕ)
    → i ≤ k
    → k < i + n
    → Named path s.dir k
    → ((m : ℕ) → m < k → ¬ Named path s.dir m)
    → IsFirstClosed s.fd_pool j
    → scan_dir path flags n i slot s ≡ (do r ← open_entry k j flags; pure (returned r)) s
unfolding scan_dir
scan_dir-hit path flags zero i slot s k j a b c h f = absurd (omega arith)
scan_dir-hit path flags (suc n) i slot s k j a b c h f = elim (Bool-cases (i == k)) [
  | inl here ↦
      let e : i ≡ k = ==→eq i k here in
      rw
        (
          e,
          eq→== (strncmp path (s.dir k).file_name filename_length) 0 c,
          first_closed-some s.fd_pool fdpool_size 0 j (omega arith) f.in_pool f.closed f.before,
        )
        (ap (λ m. and_then (open_entry m j flags s) (λ r. pure (returned r))) e)
  | inr later ↦
      let ne : i ≢ k = ==→ne i k later in
      rw (ne→== (strncmp path (s.dir i).file_name filename_length) 0 (h i (omega arith))) (
        scan_dir-hit path flags n (i + 1) (note_slot (s.dir i) i slot) s k j (omega arith)
          (omega arith) c h f)
]
