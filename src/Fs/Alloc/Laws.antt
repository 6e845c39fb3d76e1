-- ===== src/Fs/Alloc/Laws.antt =====
-- `find_empty_inode` takes the first free block, and what it does when there is none.
use native.Mathlib.Nat.{pow-suc}
use nju_oslab.Prelude.{
  ℕ, zero, suc, ◌+◌, ◌-◌, ◌*◌, ◌/◌, ◌%◌, ◌^◌, ◌≤◌, ◌<◌, ◌≡◌, ◌≢◌, refl, ap, ap₂, zero-bit,
  bit_or-lt, ◌∙◌, ==→eq, ==→ne, lt→ltb, ltb→lt, ne→==, eq→==, ◌⊎◌, bit_or, true, inl, inr, some,
  false, ltb, ◌==◌, if◌then◌else◌, ok, fault, bit, bit-bit_or, bit-complement, not32, arith,
  Bool-cases, update,
}
use nju_oslab.Fs.Layout.{Bitmap, bitmap_words, bitmap_size}
use nju_oslab.Fs.State.{Fs, need_washing, is_garbage}
use nju_oslab.Fs.Alloc.{low_zeros, take_bit, scan_bitmap, find_empty_inode}

-- The lowest bit that is on: the fuel of a word's width is enough.
record Lowest (j k : ℕ) : Type 0 where
  on : bit j k ≡ 1
  below : (m : ℕ) → m < k → bit j m ≡ 0

half_fits : (n j : ℕ) → j < 2 ^ suc n → j / 2 < 2 ^ n
half_fits n j b = omega (arith, pow-suc 2 n)

low_zeros-Lowest :
    (fuel j c : ℕ)
    → j ≢ 0
    → j < 2 ^ fuel
    → (k : ℕ) × (low_zeros fuel j c ≡ some (c + k)) × (k < fuel) × Lowest j k
unfolding low_zeros bit
low_zeros-Lowest zero j c h b = absurd (h (omega arith))
low_zeros-Lowest (suc fuel) j c h b = elim (Bool-cases (j % 2 == 0)) [
  | inr odd ↦ (
    0,
    rw odd (ap some (omega arith)),
    omega arith,
    record { on = ground arith; below = λ m p. absurd (omega arith) },
  )
  | inl even ↦
      let (k, e, lt, l) =
        low_zeros-Lowest fuel (j / 2) (c + 1) (ground arith) (half_fits fuel j b) in
      (
        suc k,
        rw even (e ∙ ap some (omega arith)),
        omega arith,
        record { on = l.on; below = shift even l.below },
      )
]
  where
    shift :
        {k : ℕ}
        → (j % 2 == 0) ≡ true
        → ((m : ℕ) → m < k → bit (j / 2) m ≡ 0)
        → (m : ℕ) → m < suc k
        → bit j m ≡ 0
    shift even f zero p = ground arith
    shift even f (suc m) p = f m (omega arith)

-- The state after the bit k of the word i is taken.
abbrev taken : Fs → ℕ → ℕ → Fs
taken s i k = record s {
  state_bitmap = need_washing;
  bitmap = update s.bitmap i (bit_or (s.bitmap i) (2 ^ k));
}

-- What taking a bit of a word that is not full does.
take_bit-Lowest :
    (i : ℕ) (s : Fs)
    → s.bitmap i < 2 ^ 32
    → not32 (s.bitmap i) ≢ 0
    → (k : ℕ) × (take_bit i s ≡ ok (i * 32 + k) (taken s i k))
      × (k < 32)
      × Lowest (not32 (s.bitmap i)) k
unfolding take_bit
take_bit-Lowest i s w h =
    let (k, e, lt, l) = low_zeros-Lowest 32 (not32 (s.bitmap i)) 0 h (omega arith) in
    let e' : low_zeros 32 (not32 (s.bitmap i)) 0 ≡ some k = e ∙ ap some (omega arith) in
    (k, rw (e', take_bit), lt, l)

-- The loop stops at the first word that is not full.
scan_bitmap-take_bit :
    (n i j : ℕ) (s : Fs)
    → i ≤ j
    → j < i + n
    → j < bitmap_words
    → ((m : ℕ) → i ≤ m → m < j → not32 (s.bitmap m) ≡ 0)
    → not32 (s.bitmap j) ≢ 0
    → scan_bitmap n i s ≡ take_bit j s
unfolding scan_bitmap
scan_bitmap-take_bit zero i j s a b c full h = absurd (omega arith)
scan_bitmap-take_bit (suc n) i j s a b c full h = elim (Bool-cases (i == j)) [
  | inl here ↦
      let e : i ≡ j = ==→eq i j here in
      rw (e, lt→ltb j bitmap_words c, ne→== (not32 (s.bitmap j)) 0 h)
  | inr later ↦
      let next =
        scan_bitmap-take_bit n (i + 1) j s (ground arith) (omega arith) c
          (λ m p q. full m (omega arith) q) h in
      rw (lt→ltb i bitmap_words (omega arith), eq→== _ 0 (full i (omega arith) (ground arith))) next
]

-- Words up to `c` are full, or there is a first one that is not.
first_word :
    (s : Fs) (c : ℕ)
    → ((m : ℕ) → m < c → not32 (s.bitmap m) ≡ 0)
      ⊎ ((j : ℕ) × (j < c) × (not32 (s.bitmap j) ≢ 0) × ((m : ℕ) → m < j → not32 (s.bitmap m) ≡ 0))
first_word s zero = inl (λ m p. absurd (omega arith))
first_word s (suc c) = elim (first_word s c) [
  | inr (j, lt, h, full) ↦ inr (j, omega arith, h, full)
  | inl full ↦ elim (Bool-cases (not32 (s.bitmap c) == 0)) [
    | inl e ↦ inl (λ m p. elim (Bool-cases (m == c)) [
      | inl here ↦ ground (arith, ap (λ k. not32 (s.bitmap k)) (==→eq m c here))
      | inr there ↦ full m (ground arith)
    ])
    | inr e ↦ inr (c, omega arith, ==→ne _ 0 e, full)
  ]
]

-- Whether the block n is taken: 1 or 0.
abbrev pub allocated : Bitmap → ℕ → ℕ
allocated m n = bit (m (n / 32)) (n % 32)

-- What `find_empty_inode` does when it returns the block n: n was free, every block before it was
-- taken, and afterwards n is taken too and no other block has changed. The rest of the state but
-- the mark of the bitmap is as it was.
pub record Allocates (s : Fs) (n : ℕ) (s' : Fs) : Type 0 where
  pub was_free : allocated s.bitmap n ≡ 0
  pub first : (m : ℕ) → m < n → allocated s.bitmap m ≡ 1
  pub marks : (m : ℕ) → allocated s'.bitmap m ≡ (if n == m then 1 else allocated s.bitmap m)
  pub words : (i : ℕ) → s'.bitmap i < 2 ^ 32
  pub rest : s' ≡ record s { bitmap = s'.bitmap; state_bitmap = need_washing }

complement : (w k : ℕ) → w < 2 ^ 32 → k < 32 → bit (not32 w) k + bit w k ≡ 1
complement w k b lt = bit-complement 32 k w lt b

allocated_of_full :
    (s : Fs) (n : ℕ)
    → not32 (s.bitmap (n / 32)) ≡ 0
    → s.bitmap (n / 32) < 2 ^ 32
    → allocated s.bitmap n ≡ 1
allocated_of_full s n h w = omega (
  arith,
  complement (s.bitmap (n / 32)) (n % 32) w (omega arith),
  ap (λ v. bit v (n % 32)) h,
  zero-bit (n % 32),
)

module _ (s : Fs) (w : (i : ℕ) → s.bitmap i < 2 ^ 32) (j k : ℕ) (lt : k < 32) where
  allocated_at : allocated s.bitmap (j * 32 + k) ≡ bit (s.bitmap j) k
  allocated_at = ap₂ (λ a b. bit (s.bitmap a) b) (omega arith) (omega arith)

  marks_taken :
      (m : ℕ)
      → allocated (taken s j k).bitmap m ≡ (if j * 32 + k == m then 1 else allocated s.bitmap m)
  marks_taken m = elim (Bool-cases (j == m / 32)) [
    | inl e ↦
        let e' : j ≡ m / 32 = ==→eq j (m / 32) e in
        rw (e, bit-bit_or k (s.bitmap j) (m % 32))
          (ground (arith, ap (λ i. bit (s.bitmap i) (m % 32)) e'))
    | inr e ↦ rw e (rw (ne→== (j * 32 + k) m (λ q. ==→ne j (m / 32) e (omega arith))) refl)
  ]

  words_taken : (i : ℕ) → (taken s j k).bitmap i < 2 ^ 32
  words_taken i = elim (Bool-cases (j == i)) [
    | inl e ↦ rw e (bit_or-lt 32 k (s.bitmap j) lt (w j))
    | inr e ↦ rw e (w i)
  ]

  taken-Allocates :
      Lowest (not32 (s.bitmap j)) k
      → ((m : ℕ) → m < j → not32 (s.bitmap m) ≡ 0)
      → Allocates s (j * 32 + k) (taken s j k)
  taken-Allocates l full = record {
    was_free = omega (arith, allocated_at, complement (s.bitmap j) k (w j) lt, l.on);
    first = λ m p. elim (Bool-cases (m / 32 == j)) [
      | inl e ↦
          let e' : m / 32 ≡ j = ==→eq _ j e in
          omega (
            arith,
            complement (s.bitmap j) (m % 32) (w j) (omega arith),
            l.below (m % 32) (omega arith),
            ap (λ i. bit (s.bitmap i) (m % 32)) e',
          )
      | inr e ↦ allocated_of_full s m (full (m / 32) (omega (arith, ==→ne _ j e))) (w (m / 32))
    ];
    marks = marks_taken;
    words = words_taken;
    rest = refl;
  }

-- With the words of the bitmap below 2 ^ 32, the bitmap loaded, and the block `free` of it
-- free, `find_empty_inode` returns a block n that is at most `free`. n was free and every block
-- before it was taken; afterwards n is taken and no other block has changed; the words still
-- fit, the bitmap is marked dirty, and the rest of the state is as it was.
pub find_empty_inode-Allocates :
    (s : Fs) (free : ℕ)
    → ((i : ℕ) → s.bitmap i < 2 ^ 32)
    → is_garbage s.state_bitmap ≡ false
    → free < bitmap_size
    → allocated s.bitmap free ≡ 0
    → (n : ℕ) × (s' : Fs) × (find_empty_inode s ≡ ok n s') × (n ≤ free) × Allocates s n s'
unfolding find_empty_inode
find_empty_inode-Allocates s free w g lt a = elim (first_word s bitmap_words) [
  | inl full ↦
      absurd
        (omega (arith, allocated_of_full s free (full (free / 32) (omega arith)) (w (free / 32))))
  | inr (j, p, h, full) ↦
      let (k, e, q, l) = take_bit-Lowest j s (w j) h in
      let al = taken-Allocates s w j k q l full in
      (
        j * 32 + k,
        taken s j k,
        rw g (
            scan_bitmap-take_bit bitmap_size 0 j s (omega arith) (omega arith) p (λ m _ r. full m r)
              h
            ∙ e),
        before_free (j * 32 + k) al,
        al,
      )
]
  where
    before_free : (n : ℕ) {s' : Fs} → Allocates s n s' → n ≤ free
    before_free n al = ground (arith, al.first free)

scan_bitmap_overrun :
    (n i : ℕ) (s : Fs)
    → i ≤ bitmap_words
    → bitmap_words < i + n
    → ((m : ℕ) → m < bitmap_words → s.bitmap m ≡ 2 ^ 32 - 1)
    → scan_bitmap n i s ≡ fault
unfolding scan_bitmap
scan_bitmap_overrun zero i s a h full = absurd (omega arith)
scan_bitmap_overrun (suc n) i s a h full = elim (Bool-cases (ltb i bitmap_words)) [
  | inr end ↦ rw end refl
  | inl more ↦
      let lt : i < bitmap_words = ltb→lt i bitmap_words more in
      rw (more, eq→== (not32 (s.bitmap i)) 0 (omega (arith, full i lt)))
        (scan_bitmap_overrun n (i + 1) s (omega arith) (omega arith) full)
]

-- With the bitmap loaded and every word of it full, `find_empty_inode` reads past the end of
-- the bitmap before it can panic: the bound of its loop is BITMAP_SIZE words and the array has
-- BITMAP_SIZE / 32.
pub find_empty_inode_overrun :
    (s : Fs)
    → is_garbage s.state_bitmap ≡ false
    → ((i : ℕ) → i < bitmap_words → s.bitmap i ≡ 2 ^ 32 - 1)
    → find_empty_inode s ≡ fault
unfolding find_empty_inode
find_empty_inode_overrun s g full =
    rw g (scan_bitmap_overrun bitmap_size 0 s (omega arith) (omega arith) full)
