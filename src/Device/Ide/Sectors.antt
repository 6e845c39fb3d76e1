-- ===== src/Device/Ide/Sectors.antt =====
-- Reading sectors from a controller that is busy for a while in front of each, and may fail.
use nju_oslab.Prelude.{
  ℕ, zero, suc, ◌+◌, ◌*◌, ◌/◌, ◌%◌, ◌^◌, ◌≤◌, ◌<◌, ◌≡◌, refl, ap, ◌∙◌, sym, ◌⊎◌, false, true, inl,
  List, ◌∷◌, ltb, leb, lt→ltb, if◌then◌else◌, Returns, returns, Returns-mono, copy, minus_one,
  arith,
}
use nju_oslab.Device.Ports.{Ports, outb}
use nju_oslab.Device.Ide.{sectsize, insl, send_command, read_sectors, ide_read}
use nju_oslab.Device.Ide.Status.{
  IsFailed, IsWait, failed-yes, failed-no, polled, ide_wait_ready-IsWait,
}

-- The read that the i-th wait starts with, when the waits have b busy polls each.
unfoldable pub moment : (b : ℕ → ℕ) (r i : ℕ) → ℕ
moment b r zero = r
moment b r (suc i) = moment b r i + b i + 1

moment-suc : (b : ℕ → ℕ) (r i : ℕ) → moment (λ j. b (suc j)) (r + b 0 + 1) i ≡ moment b r (suc i)
unfolding moment
moment-suc b r zero = refl
moment-suc b r (suc i) = ap (λ x. x + b (suc i) + 1) (moment-suc b r i)

-- Of n sectors, m are ready without a failure; the next one, if there is one, fails.
pub record IsServed (answer : ℕ → ℕ) (polls : ℕ) (b : ℕ → ℕ) (r n m : ℕ) : Type 0 where
  pub most : m ≤ n
  pub waits : (i : ℕ) → i < n → i ≤ m → IsWait answer polls (moment b r i) (b i)
  pub sound : (i : ℕ) → i < m → ¬ IsFailed (answer (moment b r i + b i))
  pub fails : m < n → IsFailed (answer (moment b r m + b m))

-- After the first of n sectors.
IsServed-rest :
    (answer : ℕ → ℕ) (polls : ℕ) (b : ℕ → ℕ) (r n m : ℕ)
    → IsServed answer polls b r (suc n) (suc m)
    → IsServed answer polls (λ j. b (suc j)) (r + b 0 + 1) n m
IsServed-rest answer polls b r n m h = record {
  most = omega (arith, h.most);
  waits = λ i p q. rw (moment-suc b r i) (h.waits (suc i) (omega arith) (omega arith));
  sound = λ i p. rw (moment-suc b r i) (h.sound (suc i) (omega arith));
  fails = λ p. rw (moment-suc b r m) (h.fails (omega arith));
}

-- What is known after the first m of n sectors have been read to `at`, which the disk hands over for
-- w, each behind its wait: from the read r on the waits have b busy polls each.
pub record HasRead (s : Ports) (w : List (ℕ × ℕ)) (b : ℕ → ℕ) (r : ℕ) (dst : ℕ → ℕ) (at n m : ℕ)
    (result : ℕ × (ℕ → ℕ)) (t : Ports) : Type 0 where
  pub answer : result.0 ≡ (if ltb m n then minus_one else 0)
  pub polls : t.reads ≡ moment b r (if ltb m n then suc m else m)
  pub taken : t.blocks ≡ s.blocks + m
  pub inside :
      (k j : ℕ)
      → k < m
      → j < sectsize
      → result.1 (at + k * sectsize + j) ≡ s.sector w (moment b r (suc k)) (s.blocks + k) j
  pub outside : (j : ℕ) → (j < at) ⊎ (at + m * sectsize ≤ j) → result.1 j ≡ dst j

copy-inside :
    (dst block : ℕ → ℕ) (at j : ℕ) → j < sectsize → copy dst at block 0 sectsize (at + j) ≡ block j
copy-inside dst block at j h =
    let e : leb at (at + j) ≡ true = ground arith in
    rw (e, lt→ltb (at + j) (at + sectsize) (omega arith)) (ap block (omega arith))

copy-outside :
    (dst block : ℕ → ℕ) (at j : ℕ)
    → (j < at) ⊎ (at + sectsize ≤ j)
    → copy dst at block 0 sectsize j ≡ dst j
copy-outside dst block at j h = ground arith

-- The state after a wait of k busy polls and a sector.
abbrev first_taken : Ports → ℕ → Ports
first_taken s k = record (polled k s) { blocks = s.blocks + 1 }

abbrev first_block : Ports → ℕ → ℕ → ℕ
first_block s k = s.sector s.written (s.reads + k + 1) s.blocks

ltb-suc : (m n : ℕ) → ltb (suc m) (suc n) ≡ ltb m n
ltb-suc m n = ground arith

one_more :
    (m n : ℕ)
    → suc (if ltb m n then suc m else m) ≡ (if ltb (suc m) (suc n) then suc (suc m) else suc m)
one_more m n = ground arith

-- One more sector in front of those that have been read.
HasRead-step :
    (s : Ports) (b : ℕ → ℕ) (dst : ℕ → ℕ) (at n m : ℕ) (result : ℕ × (ℕ → ℕ)) (t : Ports)
    → HasRead
        (first_taken s (b 0))
        s.written
        (λ j. b (suc j))
        (s.reads + b 0 + 1)
        (copy dst at (first_block s (b 0)) 0 sectsize)
        (at + sectsize)
        n
        m
        result
        t
    → HasRead s s.written b s.reads dst at (suc n) (suc m) result t
unfolding moment
HasRead-step s b dst at n m result t h = record {
  answer = h.answer ∙ rw (ltb-suc m n) refl;
  polls =
      h.polls
      ∙ moment-suc b s.reads (if ltb m n then suc m else m)
      ∙ ap (moment b s.reads) (one_more m n);
  taken = h.taken ∙ omega arith;
  inside = inside;
  outside =
      λ j o. h.outside j (omega arith) ∙ copy-outside dst (first_block s (b 0)) at j (omega arith);
}
  where
    inside :
        (k j : ℕ)
        → k < suc m
        → j < sectsize
        → result.1 (at + k * sectsize + j)
          ≡ s.sector s.written (moment b s.reads (suc k)) (s.blocks + k) j
    inside zero j p q =
        ap result.1 (omega arith)
        ∙ h.outside (at + j) (inl (omega arith))
        ∙ copy-inside dst (first_block s (b 0)) at j q
        ∙ ap (λ n. s.sector s.written (s.reads + b 0 + 1) n j) (omega arith)
    inside (suc k) j p q =
        ap result.1 (omega arith)
        ∙ h.inside k j (omega arith) q
        ∙ ap (λ r. s.sector s.written r (s.blocks + 1 + k) j) (moment-suc b s.reads (suc k))
        ∙ ap (λ n. s.sector s.written (moment b s.reads (suc (suc k))) n j) (omega arith)

read_sectors-HasRead :
    (polls n m at : ℕ) (b : ℕ → ℕ) (dst : ℕ → ℕ) (s : Ports)
    → IsServed (s.answer 0x1F7) polls b s.reads n m
    → Returns
        (λ r t.
          HasRead s s.written b s.reads dst at n m r t
          × ((t.written ≡ s.written) × (t.sent_at ≡ s.sent_at)))
        (read_sectors polls n at dst s)
unfolding read_sectors insl moment
read_sectors-HasRead polls zero zero at b dst s h = returns (
  record {
    answer = refl;
    polls = refl;
    taken = omega arith;
    inside = λ k j p q. absurd (omega arith);
    outside = λ j o. refl;
  },
  (refl, refl),
)
read_sectors-HasRead polls zero (suc m) at b dst s h = absurd (omega (arith, h.most))
read_sectors-HasRead polls (suc n) zero at b dst s h =
    rw
      (
        ide_wait_ready-IsWait polls true (b 0) s (h.waits 0 (omega arith) (omega arith)),
        failed-yes _ (h.fails (omega arith)),
      )
      (returns (
        record {
          answer = let left : ltb 0 (suc n) ≡ true = lt→ltb 0 (suc n) (omega arith) in rw left refl;
          polls = let left : ltb 0 (suc n) ≡ true = lt→ltb 0 (suc n) (omega arith) in rw left refl;
          taken = omega arith;
          inside = λ k j p q. absurd (omega arith);
          outside = λ j o. refl;
        },
        (refl, refl),
      ))
read_sectors-HasRead polls (suc n) (suc m) at b dst s h =
    rw
      (
        ide_wait_ready-IsWait polls true (b 0) s (h.waits 0 (omega arith) (omega arith)),
        failed-no _ (h.sound 0 (omega arith)),
      )
      (Returns-mono
        (read_sectors-HasRead polls n m (at + sectsize) (λ j. b (suc j))
          (copy dst at (first_block s (b 0)) 0 sectsize) (first_taken s (b 0))
          (IsServed-rest (s.answer 0x1F7) polls b s.reads n m h))
        (λ r t q. (HasRead-step s b dst at n m r t q.0, q.1)))

-- The sector that four registers of the controller name.
abbrev pub lba : (low mid high top : ℕ) → ℕ
lba low mid high top = low + mid * 2 ^ 8 + high * 2 ^ 16 + top % 16 * 2 ^ 24

-- What has been sent after the given number of reads: a count, the four parts of a sector that is
-- named by its number (not by cylinder and head) on the first drive, and a command.
pub record HasSent (s t : Ports) (reads sec_idx sec_num command : ℕ) : Type 0 where
  pub low : ℕ
  pub mid : ℕ
  pub high : ℕ
  pub top : ℕ
  pub names : lba low mid high top ≡ sec_idx
  pub drive : top / 16 ≡ 14
  pub sent :
      t.written
      ≡ (0x1F7, command)
        ∷ (0x1F6, top)
        ∷ (0x1F5, high)
        ∷ (0x1F4, mid)
        ∷ (0x1F3, low)
        ∷ (0x1F2, sec_num % 256)
        ∷ s.written
  pub moments : t.sent_at ≡ reads ∷ reads ∷ reads ∷ reads ∷ reads ∷ reads ∷ s.sent_at

abbrev commanded : Ports → ℕ → ℕ → ℕ → Ports
commanded s k sec_idx sec_num = record (polled k s) {
  written =
      (0x1F7, 0x20)
      ∷ (0x1F6, (0xE0 + sec_idx / 2 ^ 24 % 16) % 256)
      ∷ (0x1F5, sec_idx / 2 ^ 16 % 256 % 256)
      ∷ (0x1F4, sec_idx / 2 ^ 8 % 256 % 256)
      ∷ (0x1F3, sec_idx % 256 % 256)
      ∷ (0x1F2, sec_num % 256)
      ∷ s.written;
  sent_at =
      (s.reads + k + 1)
      ∷ (s.reads + k + 1)
      ∷ (s.reads + k + 1)
      ∷ (s.reads + k + 1)
      ∷ (s.reads + k + 1)
      ∷ (s.reads + k + 1)
      ∷ s.sent_at;
}

-- For a sector below 2 ^ 28, a number of sectors up to 256, and a controller that is busy or
-- not ready for some polls in front of the command and in front of each sector, fewer than are
-- allowed, and that reports a failure in front of the (m + 1)-th sector, or none at all if m is
-- the number of sectors: `ide_read` waits until the controller is ready and not before sends
-- the command: the read command, the number of sectors, and registers that name the sector by
-- its number on the first drive. It then polls until the controller is ready in front of each
-- sector. It takes the first m blocks, each behind its wait, and they lie one after the other
-- in `dst`, every other byte untouched. It returns 0 if there was no failure; otherwise it
-- takes no further block and returns -1.
pub ide_read-HasRead :
    (polls k sec_idx sec_num m : ℕ) (b : ℕ → ℕ) (dst : ℕ → ℕ) (s : Ports)
    → sec_idx < 2 ^ 28
    → sec_num ≤ 256
    → IsWait (s.answer 0x1F7) polls s.reads k
    → IsServed (s.answer 0x1F7) polls b (s.reads + k + 1) sec_num m
    → Returns
        (λ r t.
          HasSent s t (s.reads + k + 1) sec_idx sec_num 0x20
          × HasRead s t.written b (s.reads + k + 1) dst 0 sec_num m r t)
        (ide_read polls sec_idx dst sec_num s)
unfolding ide_read send_command outb
ide_read-HasRead polls k sec_idx sec_num m b dst s lt le w h =
    let e : leb sec_num 256 ≡ true = ground arith in
    rw (e, ide_wait_ready-IsWait polls false k s w)
      (Returns-mono (read_sectors-HasRead polls sec_num m 0 b dst (commanded s k sec_idx sec_num) h)
        (λ a t q. (
          record {
            low = sec_idx % 256 % 256;
            mid = sec_idx / 2 ^ 8 % 256 % 256;
            high = sec_idx / 2 ^ 16 % 256 % 256;
            top = (0xE0 + sec_idx / 2 ^ 24 % 16) % 256;
            names = omega arith;
            drive = omega arith;
            sent = q.1.0;
            moments = q.1.1;
          },
          record {
            answer = q.0.answer;
            polls = q.0.polls;
            taken = q.0.taken;
            inside = λ i j x y.
                q.0.inside i j x y
                ∙ ap (λ v. s.sector v (moment b (s.reads + k + 1) (suc i)) (s.blocks + i) j)
                    (sym q.1.0);
            outside = q.0.outside;
          },
        )))
