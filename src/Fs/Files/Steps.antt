-- ===== src/Fs/Files/Steps.antt =====
-- The steps of a descriptor that reads: each changes this descriptor alone.
use nju_oslab.Prelude.{
  ℕ, ◌/◌, ◌%◌, ◌<◌, ◌≡◌, ◌≢◌, refl, ap, false, Bool-cases, inl, inr, lt→ltb, ◌==◌, ==→eq, eq→==,
  ne→==, update, ok, fun_ext, arith, minus_one,
}
use nju_oslab.Fs.Layout.{sectsize, entry_count, n_inode_datablock, inode_capacity}
use nju_oslab.Fs.State.{
  Fs, Fd, garbage, useful, is_dirty, fdpool_size, fd_at, fd_put, dir_at, ide_read_data,
}
use nju_oslab.Fs.Cache.{
  fd_inode_flush, load_inode, fd_inode_state_init, fd_advance_inode, fd_load_block, fd_buffer_flush,
}
use nju_oslab.Fs.Files.{data_sector, inode_at}

module _ (s : Fs) (fd : ℕ) where
  -- The state with the descriptor d at fd.
  abbrev pub with_fd : Fd → Fs
  with_fd d = record s { fd_pool = update s.fd_pool fd d }

  pub with_fd_self : with_fd (s.fd_pool fd) ≡ s
  with_fd_self =
      ap (λ p. record s { fd_pool = p })
        (fun_ext (λ k. elim (Bool-cases (fd == k)) [
          | inl e ↦ rw e (ap s.fd_pool (==→eq fd k e))
          | inr e ↦ rw e refl
        ]))

  module _ (h : fd < fdpool_size) where
    pub fd_at-with_fd : (d : Fd) → fd_at fd (with_fd d) ≡ ok d (with_fd d)
    unfolding fd_at
    fd_at-with_fd d = rw (lt→ltb fd fdpool_size h, eq→== fd fd refl) refl

    pub fd_put-with_fd : (d e : Fd) → fd_put fd e (with_fd d) ≡ ok tt (with_fd e)
    unfolding fd_put
    fd_put-with_fd d e =
        rw (lt→ltb fd fdpool_size h)
          (ap (λ p. ok tt (record s { fd_pool = p })) (fun_ext (λ k. ground arith)))

    pub fd_inode_flush-clean :
        (d : Fd)
        → is_dirty d.inode_state ≡ false
        → fd_inode_flush fd (with_fd d) ≡ ok tt (with_fd d)
    unfolding fd_inode_flush
    fd_inode_flush-clean d e = rw (fd_at-with_fd d, e) refl

    -- The descriptor with the inode in that sector.
    abbrev pub loaded : Fd → ℕ → Fd
    loaded d block = record d {
      inode_state = useful;
      inode_idx = block;
      inode = inode_at s.disk block;
    }

    pub load_inode-with_fd :
        (d : Fd) (block : ℕ) → load_inode fd block (with_fd d) ≡ ok tt (with_fd (loaded d block))
    unfolding load_inode ide_read_data
    load_inode-with_fd d block = rw (fd_at-with_fd d, fd_put-with_fd d (loaded d block)) refl

    pub fd_buffer_flush-clean :
        (d : Fd)
        → is_dirty d.buffer_state ≡ false
        → fd_buffer_flush fd (with_fd d) ≡ ok tt (with_fd (record d { buffer_state = garbage }))
    unfolding fd_buffer_flush
    fd_buffer_flush-clean d e =
        rw (fd_at-with_fd d, e, fd_put-with_fd d (record d { buffer_state = garbage })) refl

    -- At the start of the file its first inode is loaded.
    pub fd_advance_inode-first :
        (d : Fd)
        → is_dirty d.inode_state ≡ false
        → d.offset ≡ 0
        → d.index < entry_count
        → (s.dir d.index).inode_offset ≢ minus_one
        → fd_advance_inode fd (with_fd d)
          ≡ ok tt
              (with_fd (loaded (record d { inode_state = garbage }) (s.dir d.index).inode_offset))
    unfolding fd_advance_inode fd_inode_state_init dir_at
    fd_advance_inode-first d c z i ne =
        let g : Fd = record d { inode_state = garbage } in
        rw
          (
            fd_inode_flush-clean d c,
            fd_at-with_fd d,
            fd_put-with_fd d g,
            fd_at-with_fd g,
            eq→== (d.offset % inode_capacity) 0 (omega (arith, z)),
            eq→== d.offset 0 z,
            lt→ltb d.index entry_count i,
            ne→== (s.dir d.index).inode_offset minus_one ne,
          )
          (load_inode-with_fd g (s.dir d.index).inode_offset)

    -- At the start of another inode's part of the file the next one is loaded.
    pub fd_advance_inode-next :
        (d : Fd)
        → is_dirty d.inode_state ≡ false
        → d.offset ≢ 0
        → d.offset % inode_capacity ≡ 0
        → d.inode.next ≢ 0
        → fd_advance_inode fd (with_fd d)
          ≡ ok tt (with_fd (loaded (record d { inode_state = garbage }) d.inode.next))
    unfolding fd_advance_inode fd_inode_state_init
    fd_advance_inode-next d c z m ne =
        let g : Fd = record d { inode_state = garbage } in
        rw
          (
            fd_inode_flush-clean d c,
            fd_at-with_fd d,
            fd_put-with_fd d g,
            fd_at-with_fd g,
            eq→== (d.offset % inode_capacity) 0 m,
            ne→== d.offset 0 z,
            ne→== d.inode.next 0 ne,
          )
          (load_inode-with_fd g d.inode.next)

    -- The descriptor with the block of its offset.
    abbrev pub filled : Fd → Fd
    filled d =
        let b = d.inode.data_blocks (d.offset / sectsize % n_inode_datablock) in
        record d { buffer_idx = b; buffer = data_sector s.disk b; buffer_state = useful }

    pub fd_load_block-with_fd :
        (d : Fd)
        → d.inode.data_blocks (d.offset / sectsize % n_inode_datablock) ≢ 0
        → fd_load_block fd (with_fd d) ≡ ok tt (with_fd (filled d))
    unfolding fd_load_block ide_read_data
    fd_load_block-with_fd d ne =
        let b : ℕ = d.inode.data_blocks (d.offset / sectsize % n_inode_datablock) in
        let e : Fd = record d { buffer_idx = b; buffer = data_sector s.disk b } in
        rw
          (
            fd_at-with_fd d,
            ne→== b 0 ne,
            fd_put-with_fd d e,
            fd_at-with_fd e,
            fd_put-with_fd e (filled d),
          )
          refl
