-- ===== src/Fs/Transfer/Block.antt =====
-- Bytes that are written and read back while their block is in the buffer.
use nju_oslab.Prelude.{
  ℕ, zero, suc, ◌+◌, ◌-◌, ◌%◌, ◌^◌, ◌≤◌, ◌<◌, ◌≡◌, refl, ap, ◌∙◌, true, false, Bool-cases, inl, inr,
  ltb, lt→ltb, ge→ltb, ltb→ge, ne→==, if◌then◌else◌, update, copy, ok, arith, pos, negsuc, signed32,
  add32, sub32,
}
use nju_oslab.Fs.Layout.{sectsize, entry_count}
use nju_oslab.Fs.State.{
  Fs, Fd, need_washing, is_garbage, fdpool_size, fd_at, fd_put, dir_at, dir_put, mark_dir,
}
use nju_oslab.Fs.Cache.{fd_buffer_fetch}
use nju_oslab.Fs.Transfer.{
  chunk, min_int, read_round, read_loop, read_up_to, fs_read, grow_file, write_round, write_loop,
  fs_write, fs_lseek, seek_cur,
}

-- The descriptor fd is open with a block in its buffer, and n bytes from its offset on end before the
-- block does. The file stays below 2 GB.
pub record HoldsBlock (s : Fs) (fd n : ℕ) : Type 0 where
  pub in_pool : fd < fdpool_size
  pub in_dir : (s.fd_pool fd).index < entry_count
  pub opened : (s.fd_pool fd).opened ≡ true
  pub held : is_garbage (s.fd_pool fd).buffer_state ≡ false
  pub within : (s.fd_pool fd).offset % sectsize + n < sectsize
  pub small : (s.fd_pool fd).offset + n < 2 ^ 31
  pub sized : (s.dir (s.fd_pool fd).index).file_size < 2 ^ 31

fd_at-ok : (fd : ℕ) (s : Fs) → fd < fdpool_size → fd_at fd s ≡ ok (s.fd_pool fd) s
unfolding fd_at
fd_at-ok fd s h = rw (lt→ltb fd fdpool_size h) refl

abbrev pub fd_set : Fs → ℕ → Fd → Fs
fd_set s fd d = record s { fd_pool = update s.fd_pool fd d }

fd_put-ok : (fd : ℕ) (d : Fd) (s : Fs) → fd < fdpool_size → fd_put fd d s ≡ ok tt (fd_set s fd d)
unfolding fd_put
fd_put-ok fd d s h = rw (lt→ltb fd fdpool_size h) refl

fd_buffer_fetch-held :
    (fd : ℕ) (s : Fs)
    → fd < fdpool_size
    → is_garbage (s.fd_pool fd).buffer_state ≡ false
    → fd_buffer_fetch fd s ≡ ok tt s
unfolding fd_buffer_fetch
fd_buffer_fetch-held fd s h e = rw (fd_at-ok fd s h, e) refl

-- The size that a write leaves.
abbrev pub grown : Fs → ℕ → ℕ → Fs
grown s index offset =
    if ltb (s.dir index).file_size offset
    then record s {
      dir = update s.dir index (record (s.dir index) { file_size = offset });
      state_dir = need_washing;
    }
    else s

grow_file-ok :
    (index offset : ℕ) (s : Fs)
    → index < entry_count
    → grow_file index offset s ≡ ok tt (grown s index offset)
unfolding grow_file dir_at dir_put mark_dir
grow_file-ok index offset s h = elim (Bool-cases (ltb (s.dir index).file_size offset)) [
  | inl e ↦ rw (lt→ltb index entry_count h, e) refl
  | inr e ↦ rw (lt→ltb index entry_count h, e) refl
]

-- The descriptor after n bytes were written to its block.
abbrev pub written : Fd → (ℕ → ℕ) → ℕ → Fd
written d buf n = record d {
  buffer_state = need_washing;
  offset = d.offset + n;
  buffer = copy d.buffer (d.offset % sectsize) buf 0 n;
}

chunk-within : (o n : ℕ) → o % sectsize + n < sectsize → chunk o n 0 ≡ n
chunk-within o n h = omega arith

write_round-within :
    (fd n : ℕ) (buf : ℕ → ℕ) (s : Fs)
    → HoldsBlock s fd n
    → write_round fd buf n 0 s
      ≡ ok tt (
          grown
            (fd_set s fd (written (s.fd_pool fd) buf n))
            (s.fd_pool fd).index
            ((s.fd_pool fd).offset + n))
unfolding write_round
write_round-within fd n buf s b =
    let o : ℕ = (s.fd_pool fd).offset in
    let e : (o + n) % 2 ^ 32 ≡ o + n = omega (arith, b.small) in
    rw
      (
        fd_at-ok fd s b.in_pool,
        fd_buffer_fetch-held fd s b.in_pool b.held,
        chunk-within o n b.within,
        fd_at-ok fd s b.in_pool,
        e,
        fd_put-ok fd (written (s.fd_pool fd) buf n) s b.in_pool,
        grow_file-ok (s.fd_pool fd).index (o + n) (fd_set s fd (written (s.fd_pool fd) buf n))
            b.in_dir,
        ne→== (o % sectsize + n) sectsize (omega (arith, b.within)),
      )
      refl

write_loop-done :
    (fuel fd n done : ℕ) (buf : ℕ → ℕ) (s : Fs)
    → done ≡ n
    → write_loop fuel fd buf n done s ≡ ok n s
unfolding write_loop
write_loop-done zero fd n done buf s e = rw (e, ge→ltb n n (omega arith)) refl
write_loop-done (suc fuel) fd n done buf s e = rw (e, ge→ltb n n (omega arith)) refl

-- The state after the write.
abbrev pub after_write : Fs → ℕ → (ℕ → ℕ) → ℕ → Fs
after_write s fd buf n =
    grown (fd_set s fd (written (s.fd_pool fd) buf n)) (s.fd_pool fd).index
      ((s.fd_pool fd).offset + n)

pub write_loop-within :
    (fd n : ℕ) (buf : ℕ → ℕ) (s : Fs)
    → HoldsBlock s fd (suc n)
    → write_loop (suc n) fd buf (suc n) 0 s ≡ ok (suc n) (after_write s fd buf (suc n))
unfolding write_loop
write_loop-within fd n buf s b =
    rw
      (
        lt→ltb 0 (suc n) (omega arith),
        fd_at-ok fd s b.in_pool,
        write_round-within fd (suc n) buf s b,
        chunk-within (s.fd_pool fd).offset (suc n) b.within,
      )
      (write_loop-done n fd (suc n) (0 + suc n) buf (after_write s fd buf (suc n)) (omega arith))

pub fs_write-opened :
    (fd n : ℕ) (buf : ℕ → ℕ) (s : Fs)
    → fd < fdpool_size
    → (s.fd_pool fd).opened ≡ true
    → (s.fd_pool fd).writable ≡ true
    → fs_write fd buf (pos n) s ≡ write_loop n fd buf n 0 s
unfolding fs_write
fs_write-opened fd n buf s h o w = rw (fd_at-ok fd s h, o, w) refl

read_loop-done :
    (fuel fd n done : ℕ) (buf : ℕ → ℕ) (s : Fs)
    → done ≡ n
    → read_loop fuel fd n done buf s ≡ ok (n, buf) s
unfolding read_loop
read_loop-done zero fd n done buf s e = rw (e, ge→ltb n n (omega arith)) refl
read_loop-done (suc fuel) fd n done buf s e = rw (e, ge→ltb n n (omega arith)) refl

-- The descriptor after n bytes were read from its block.
abbrev read_on : Fs → ℕ → ℕ → Fs
read_on s fd n = fd_set s fd (record (s.fd_pool fd) { offset = (s.fd_pool fd).offset + n })

read_round-within :
    (fd n : ℕ) (buf : ℕ → ℕ) (s : Fs)
    → 0 < n
    → HoldsBlock s fd n
    → read_round fd n 0 buf s
      ≡ ok (copy buf 0 (s.fd_pool fd).buffer ((s.fd_pool fd).offset % sectsize) n) (read_on s fd n)
unfolding read_round
read_round-within fd n buf s p b =
    let o : ℕ = (s.fd_pool fd).offset in
    let e : (o + n) % 2 ^ 32 ≡ o + n = omega (arith, b.small) in
    rw
      (
        fd_buffer_fetch-held fd s b.in_pool b.held,
        fd_at-ok fd s b.in_pool,
        chunk-within o n b.within,
        e,
        fd_put-ok fd (record (s.fd_pool fd) { offset = o + n }) s b.in_pool,
        ne→== ((o + n) % sectsize) 0 (omega (arith, p, b.within)),
      )
      refl

pub read_loop-within :
    (fd n : ℕ) (buf : ℕ → ℕ) (s : Fs)
    → HoldsBlock s fd (suc n)
    → read_loop (suc n) fd (suc n) 0 buf s
      ≡ ok
          (suc n, copy buf 0 (s.fd_pool fd).buffer ((s.fd_pool fd).offset % sectsize) (suc n))
          (read_on s fd (suc n))
unfolding read_loop
read_loop-within fd n buf s b =
    rw
      (
        lt→ltb 0 (suc n) (omega arith),
        fd_at-ok fd s b.in_pool,
        read_round-within fd (suc n) buf s (omega arith) b,
        chunk-within (s.fd_pool fd).offset (suc n) b.within,
      )
      (read_loop-done n fd (suc n) (0 + suc n)
        (copy buf 0 (s.fd_pool fd).buffer ((s.fd_pool fd).offset % sectsize) (suc n))
        (read_on s fd (suc n)) (omega arith))

-- The length that a read takes when the file has that many bytes from the offset on.
min_int-enough :
    (n size o : ℕ)
    → size < 2 ^ 31
    → o + n ≤ size
    → min_int (pos n) (signed32 (sub32 size o)) ≡ pos n
unfolding min_int
min_int-enough n size o small enough =
    let e : sub32 size o ≡ size - o = omega arith in
    rw (e, lt→ltb (size - o) (2 ^ 31) (omega arith))
      (elim (Bool-cases (ltb n (size - o))) [
        | inl f ↦ rw f refl
        | inr f ↦ rw f (ap pos (omega (arith, ltb→ge n (size - o) f)))
      ])

pub fs_read-opened :
    (fd n : ℕ) (buf : ℕ → ℕ) (s : Fs)
    → HoldsBlock s fd n
    → (s.fd_pool fd).offset + n ≤ (s.dir (s.fd_pool fd).index).file_size
    → fs_read fd buf (pos n) s ≡ read_loop n fd n 0 buf s
unfolding fs_read dir_at read_up_to
fs_read-opened fd n buf s b h =
    rw
      (
        fd_at-ok fd s b.in_pool,
        b.opened,
        lt→ltb (s.fd_pool fd).index entry_count b.in_dir,
        min_int-enough n (s.dir (s.fd_pool fd).index).file_size (s.fd_pool fd).offset b.sized h,
      )
      refl

-- The descriptor at another offset.
abbrev pub sought : Fs → ℕ → ℕ → Fs
sought s fd o = fd_set s fd (record (s.fd_pool fd) { offset = o })

pub fs_lseek-back :
    (fd n o : ℕ) (s : Fs)
    → fd < fdpool_size
    → (s.fd_pool fd).opened ≡ true
    → (s.fd_pool fd).offset ≡ o + suc n
    → o + suc n < 2 ^ 31
    → fs_lseek fd (negsuc n) seek_cur s ≡ ok tt (sought s fd o)
unfolding fs_lseek
fs_lseek-back fd n o s h opened at small =
    rw (fd_at-ok fd s h, opened) refl
    ∙ fd_put-ok fd
        (record (s.fd_pool fd) { offset = add32 (s.fd_pool fd).offset (2 ^ 32 - 1 - n % 2 ^ 32) }) s
        h
    ∙ ap (λ v. ok tt (sought s fd v)) (omega (arith, at))
