-- ===== src/Loader/Segment.antt =====
-- One segment of the kernel in the memory.
use nju_oslab.Prelude.{
  ℕ, zero, suc, ◌+◌, ◌-◌, ◌*◌, ◌/◌, ◌%◌, ◌^◌, ◌<◌, ◌≡◌, refl, ap, ap₂, ◌∙◌, subst, true, false,
  Bool-cases, inl, inr, ◌&&◌, ltb, leb, ◌==◌, ==→eq, ==→ne, if◌then◌else◌, pure, arith, add32,
  sub32, Returns, returns, Returns-bind, Returns-mono,
}
use nju_oslab.Fs.Layout.{Sector, INode, decode_inode, sectsize, n_inode_datablock}
use nju_oslab.Fs.Files.{data_sector, inode_at, inode_no, block_no, file_byte}
use nju_oslab.Loader.{Loader, Chain, poked, next_inode, skip_inodes, load_sectors}
use nju_oslab.Loader.Disk.{Serves, read_data-Serves}

-- The bytes from `dst` on, where the stores do not wrap.
pub stored_from : (dst n : ℕ) (bytes : ℕ → ℕ) (w old : ℕ) → ℕ
stored_from dst n bytes w old = if leb dst w && ltb w (dst + n) then bytes (w - dst) else old

pub poked-stored_from :
    (ram : ℕ → ℕ) (dst n : ℕ) (bytes : ℕ → ℕ) (w : ℕ)
    → dst + n < 2 ^ 32
    → w < 2 ^ 32
    → poked ram dst n bytes w ≡ stored_from dst n bytes w (ram w)
unfolding stored_from
poked-stored_from ram dst n bytes w p q = elim (Bool-cases (leb dst w && ltb w (dst + n))) [
  | inl e ↦
      let same : sub32 w dst ≡ w - dst = ground (arith, e) in
      let hit : ltb (w - dst) n ≡ true = ground (arith, e) in rw (e, same, hit) refl
  | inr e ↦ let miss : ltb (sub32 w dst) n ≡ false = ground (arith, e) in rw (e, miss) refl
]

-- The first file of the disk starts at the first inode of the data area.
module _ (disk : ℕ → Sector) where
  abbrev pub kernel_byte : ℕ → ℕ
  kernel_byte = file_byte disk 0

  -- Every number in the file's chain can be sent to the controller.
  pub record IsNear : Type 0 where
    pub inodes : (k : ℕ) → inode_no disk 0 k < 2 ^ 27
    pub blocks : (b : ℕ) → block_no disk 0 b < 2 ^ 27

  -- The loader has the inode of index k.
  pub record IsAt (k : ℕ) (c : Chain) : Type 0 where
    pub index : c.index_inode ≡ k
    pub inode : c.inode ≡ inode_at disk (inode_no disk 0 k)

  -- The loader has the inode of index k, with this memory.
  pub record Holds (k : ℕ) (m : ℕ → ℕ) (c : Chain) (t : Loader) : Type 0 where
    pub at : IsAt k c
    pub memory : (w : ℕ) → w < 2 ^ 32 → t.ram w ≡ m w
    pub serves : Serves disk t.ports

  next_place :
      (q : ℕ)
      → (if q % n_inode_datablock + 1 == n_inode_datablock then 0 else q % n_inode_datablock + 1)
        ≡ suc q % n_inode_datablock
  next_place q = ground arith

  -- The n blocks of the file from the block q on.
  abbrev pub from_block : (q dst n : ℕ) (w old : ℕ) → ℕ
  from_block q dst n w old =
      stored_from dst (n * sectsize) (λ j. kernel_byte (q * sectsize + j)) w old

  first_block :
      (q dst n w old : ℕ) (b : Sector)
      → b ≡ data_sector disk (block_no disk 0 q)
      → from_block (suc q) (dst + sectsize) n w (stored_from dst sectsize b w old)
        ≡ from_block q dst (suc n) w old
  unfolding stored_from
  first_block q dst n w old b e = elim (Bool-cases (leb dst w && ltb w (dst + sectsize))) [
    | inl h ↦
        let later : (leb (dst + sectsize) w && ltb w (dst + sectsize + n * sectsize)) ≡ false =
          ground (arith, h) in
        let all : (leb dst w && ltb w (dst + suc n * sectsize)) ≡ true = ground (arith, h) in
        let o : ℕ = q * sectsize + (w - dst) in
        let block : q ≡ o / sectsize = ground (arith, h) in
        let place : w - dst ≡ o % sectsize = ground (arith, h) in
        rw (h, later, all, e) (ap₂ (λ k j. data_sector disk (block_no disk 0 k) j) block place)
    | inr h ↦
        let rest : (leb (dst + sectsize) w && ltb w (dst + sectsize + n * sectsize))
            ≡ (leb dst w && ltb w (dst + suc n * sectsize)) =
          ground (arith, h) in
        elim (Bool-cases (leb dst w && ltb w (dst + suc n * sectsize))) [
          | inl a ↦ rw (h, rest, a) (ap kernel_byte (ground (arith, rest, a)))
          | inr a ↦ rw (h, rest, a) refl
        ]
  ]

  no_block : (q dst w old : ℕ) → old ≡ from_block q dst 0 w old
  unfolding stored_from
  no_block q dst w old =
      let none_of : (leb dst w && ltb w (dst + 0 * sectsize)) ≡ false = ground arith in
      rw none_of refl

  module _ (polls : ℕ) (near : IsNear) where
    next_inode-Holds :
        (k : ℕ) (c : Chain) (s : Loader)
        → IsAt k c
        → Serves disk s.ports
        → Returns (λ c' t. Holds (suc k) s.ram c' t) (next_inode (suc polls) c s)
    unfolding next_inode inode_no
    next_inode-Holds k c s a h =
        let e : c.inode.next ≡ inode_no disk 0 (suc k) = ap (λ (n : INode). n.next) a.inode in
        rw e (
          Returns-bind
            (read_data-Serves disk polls (inode_no disk 0 (suc k)) s (near.inodes (suc k)) h)
            (λ b t p. returns record {
              at = record { index = omega (arith, a.index); inode = ap decode_inode p.0 };
              memory = λ w lt. ap (λ (r : ℕ → ℕ). r w) p.1.0;
              serves = p.1.1;
            }))

    pub skip_inodes-Holds :
        (n k : ℕ) (c : Chain) (s : Loader)
        → IsAt k c
        → Serves disk s.ports
        → Returns (λ c' t. Holds (k + n) s.ram c' t) (skip_inodes (suc polls) n c s)
    unfolding skip_inodes
    skip_inodes-Holds zero k c s a h =
        returns
          record { at = subst (λ j. IsAt j c) (omega arith) a; memory = λ w lt. refl; serves = h }
    skip_inodes-Holds (suc n) k c s a h = Returns-bind (next_inode-Holds k c s a h) (λ c' t p.
        Returns-mono (skip_inodes-Holds n (suc k) c' t p.at p.serves) (λ c'' u q. record {
          at = subst (λ j. IsAt j c'') (omega arith) q.at;
          memory = λ w lt. q.memory w lt ∙ p.memory w lt;
          serves = q.serves;
        }))

    -- From the block q on to the next one.
    to_next :
        (q : ℕ) (c : Chain) (s : Loader)
        → IsAt (q / n_inode_datablock) c
        → Serves disk s.ports
        → Returns
            (λ c' t. Holds (suc q / n_inode_datablock) s.ram c' t)
            ((if q % n_inode_datablock + 1 == n_inode_datablock
                then next_inode (suc polls) c
                else pure c)
              s)
    to_next q c s a h = elim (Bool-cases (q % n_inode_datablock + 1 == n_inode_datablock)) [
      | inl e ↦
          let up : suc (q / n_inode_datablock) ≡ suc q / n_inode_datablock =
            omega (arith, ==→eq (q % n_inode_datablock + 1) n_inode_datablock e) in
          rw e (
            subst (λ k. Returns (λ c' t. Holds k s.ram c' t) (next_inode (suc polls) c s)) up
              (next_inode-Holds (q / n_inode_datablock) c s a h))
      | inr e ↦
          let same : q / n_inode_datablock ≡ suc q / n_inode_datablock =
            omega (arith, ==→ne (q % n_inode_datablock + 1) n_inode_datablock e) in
          rw e (
            returns record { at = subst (λ k. IsAt k c) same a; memory = λ w lt. refl; serves = h })
    ]

    pub load_sectors-Holds :
        (n q dst : ℕ) (c : Chain) (s : Loader)
        → dst + n * sectsize < 2 ^ 32
        → IsAt (q / n_inode_datablock) c
        → Serves disk s.ports
        → Returns
            (λ c' t. Holds ((q + n) / n_inode_datablock) (λ w. from_block q dst n w (s.ram w)) c' t)
            (load_sectors (suc polls) n dst (q % n_inode_datablock) c s)
    unfolding load_sectors
    load_sectors-Holds zero q dst c s lt a h = returns record {
      at = subst (λ k. IsAt k c) (omega arith) a;
      memory = λ w lt. no_block q dst w (s.ram w);
      serves = h;
    }
    load_sectors-Holds (suc n) q dst c s lt a h =
        let which : c.inode.data_blocks (q % n_inode_datablock) ≡ block_no disk 0 q =
          ap (λ (n : INode). n.data_blocks (q % n_inode_datablock)) a.inode in
        let on : add32 dst sectsize ≡ dst + sectsize = omega arith in
        rw (which, next_place q, on)
          (Returns-bind (read_data-Serves disk polls (block_no disk 0 q) s (near.blocks q) h)
            (λ b t p.
              Returns-bind (to_next q c (record t { ram = poked t.ram dst sectsize b }) a p.1.1)
                (λ c' u r.
                  Returns-mono
                    (load_sectors-Holds n (suc q) (dst + sectsize) c' u (omega arith) r.at r.serves)
                    (λ c'' v m. record {
                      at = subst (λ k. IsAt k c'') (omega arith) m.at;
                      memory = λ w small.
                          m.memory w small
                          ∙ ap (λ old. from_block (suc q) (dst + sectsize) n w old)
                              (r.memory w small
                                ∙ poked-stored_from t.ram dst sectsize b w (omega arith) small
                                ∙ ap (λ (x : ℕ → ℕ). stored_from dst sectsize b w (x w)) p.1.0)
                          ∙ first_block q dst n w (s.ram w) b p.0;
                      serves = m.serves;
                    }))))
