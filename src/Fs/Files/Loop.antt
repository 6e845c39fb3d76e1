-- ===== src/Fs/Files/Loop.antt =====
-- All the rounds of `fs_read`.
use nju_oslab.Prelude.{
  ℕ, zero, suc, ◌+◌, ◌-◌, ◌^◌, ◌≤◌, ◌<◌, ◌≡◌, refl, ap, ◌∙◌, true, false, ◌&&◌, Bool-cases, inl,
  inr, ltb, leb, lt→ltb, ge→ltb, ltb→lt, ltb→ge, ok, arith, subst,
}
use nju_oslab.Fs.Layout.{entry_count, Sector}
use nju_oslab.Fs.State.{Fs, Fd, fdpool_size}
use nju_oslab.Fs.Transfer.{chunk, read_round, read_loop}
use nju_oslab.Fs.Files.{file_byte, IsStored, IsReading}
use nju_oslab.Fs.Files.Steps.{with_fd, fd_at-with_fd}
use nju_oslab.Fs.Files.Fetch.{SameFile}
use nju_oslab.Fs.Files.Reading.{Received, read_round-Received}

Received-none :
    (disk : ℕ → Sector) (first o done n : ℕ) (buf : ℕ → ℕ)
    → n ≡ 0
    → Received disk first o done n buf buf
Received-none disk first o done n buf e = record { bytes = λ j. ground (arith, e) }

-- The bytes of a round, then those of the rounds after it.
Received-trans :
    (disk : ℕ → Sector) (first o done c n : ℕ) (old mid new : ℕ → ℕ)
    → c ≤ n
    → Received disk first o done c old mid
    → Received disk first (o + c) (done + c) (n - c) mid new
    → Received disk first o done n old new
Received-trans disk first o done c n old mid new le a b = record {
  bytes = λ j. elim (Bool-cases (leb (done + c) j && ltb j (done + c + (n - c)))) [
    | inl e ↦
        let all : (leb done j && ltb j (done + n)) ≡ true = ground (arith, e) in
        let from : o + c + (j - (done + c)) ≡ o + (j - done) = ground (arith, e) in
        b.bytes j ∙ rw (e, all) (ap (file_byte disk first) from)
    | inr e ↦
        let none : (leb done j && ltb j (done + c)) ≡ (leb done j && ltb j (done + n)) =
          ground (arith, e) in
        b.bytes j ∙ rw e (a.bytes j ∙ rw none refl)
  ];
}

module _ (s : Fs) (fd : ℕ) (h : fd < fdpool_size) (first size : ℕ) (st : IsStored s.disk first size)
    (small : size < 2 ^ 31) where
  -- A loop of n more bytes that behaves: it returns them all, and the descriptor reads on behind.
  abbrev pub Completes : (fuel len done n o : ℕ) (buf : ℕ → ℕ) (d : Fd) → Type 0
  Completes fuel len done n o buf d =
      (e : Fd) × (new : ℕ → ℕ) × (read_loop fuel fd len done buf (with_fd s fd d)
        ≡ ok (len, new) (with_fd s fd e))
      × SameFile d e
      × IsReading s.disk first (o + n) e
      × Received s.disk first o done n buf new

  Completes-none :
      (fuel len done n o : ℕ) (buf : ℕ → ℕ) (d : Fd)
      → done + n ≡ len
      → n ≡ 0
      → IsReading s.disk first o d
      → Completes fuel len done n o buf d
  unfolding read_loop
  Completes-none fuel len done n o buf d l z r = (
    d,
    buf,
    stops fuel (ge→ltb done len (omega (arith, l, z))) (omega (arith, l, z)),
    record { index = refl; opened = refl; writable = refl },
    subst (λ k. IsReading s.disk first k d) (omega (arith, z)) r,
    Received-none s.disk first o done n buf z,
  )
    where
      stops :
          (k : ℕ)
          → ltb done len ≡ false
          → done ≡ len
          → read_loop k fd len done buf (with_fd s fd d) ≡ ok (len, buf) (with_fd s fd d)
      stops zero e same = rw e (ap (λ v. ok (v, buf) (with_fd s fd d)) same)
      stops (suc k) e same = rw e (ap (λ v. ok (v, buf) (with_fd s fd d)) same)

  -- A round in front of a loop that behaves.
  Completes-round :
      (fuel len done n o : ℕ) (buf mid : ℕ → ℕ) (d e : Fd)
      → d.offset ≡ o
      → done < len
      → done + n ≡ len
      → read_round fd len done buf (with_fd s fd d) ≡ ok mid (with_fd s fd e)
      → SameFile d e
      → Received s.disk first o done (chunk o len done) buf mid
      → Completes fuel len
          (done + chunk o len done)
          (n - chunk o len done)
          (o + chunk o len done)
          mid
          e
      → Completes (suc fuel) len done n o buf d
  unfolding read_loop
  Completes-round fuel len done n o buf mid d e at lt l run same got
        (d', new, run', same', r, got') =
      let same_chunk : chunk d.offset len done ≡ chunk o len done = ap (λ v. chunk v len done) at in
      (
        d',
        new,
        rw (lt→ltb done len lt, fd_at-with_fd s fd h d, run, same_chunk) run',
        record {
          index = same'.index ∙ same.index;
          opened = same'.opened ∙ same.opened;
          writable = same'.writable ∙ same.writable;
        },
        subst (λ k. IsReading s.disk first k d') (omega (arith, l)) r,
        Received-trans s.disk first o done (chunk o len done) n buf mid new (omega (arith, l)) got
            got',
      )

  pub read_loop-Completes :
      (fuel len done n o : ℕ) (buf : ℕ → ℕ) (d : Fd)
      → done + n ≡ len
      → n ≤ fuel
      → IsReading s.disk first o d
      → d.index < entry_count
      → (s.dir d.index).inode_offset ≡ first
      → o + n ≤ size
      → Completes fuel len done n o buf d
  read_loop-Completes zero len done n o buf d l le r i f fits =
      Completes-none zero len done n o buf d l (omega (arith, le)) r
  read_loop-Completes (suc fuel) len done n o buf d l le r i f fits =
      elim (Bool-cases (ltb done len)) [
        | inr e ↦
            Completes-none (suc fuel) len done n o buf d l (omega (arith, l, ltb→ge done len e)) r
        | inl e ↦
            let lt : done < len = ltb→lt done len e in
            let c : ℕ = chunk o len done in
            let (d', mid, run, same, r', got) =
              read_round-Received s fd h first size st small d o len done buf r i f lt
                (omega (arith, l, fits)) in
            Completes-round fuel len done n o buf mid d d' r.at lt l run same got (
              read_loop-Completes fuel len (done + c) (n - c) (o + c) mid d' (omega (arith, l))
                (omega (arith, l, le, lt)) r' (rw same.index i) (rw same.index f)
                (omega (arith, l, fits)))
      ]
