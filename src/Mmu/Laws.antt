-- ===== src/Mmu/Laws.antt =====
-- An address is the sum of its parts, and a descriptor holds what it was made of.
use nju_oslab.Prelude.{
  ℕ, ◌+◌, ◌*◌, ◌/◌, ◌%◌, ◌^◌, ◌<◌, ◌≡◌, ap, ◌∙◌, Bool, bit_or, bit_or-fields, arith,
}
use nju_oslab.Mmu.{pdx, ptx, pgoff, pgaddr, Segdesc, seg, seg16, Gatedesc, setgate}

-- PGADDR puts an address below 2 ^ 32 together again from its page directory index, its page
-- table index and its offset.
pub pgaddr-parts : (la : ℕ) → la < 2 ^ 32 → pgaddr (pdx la) (ptx la) (pgoff la) ≡ la
unfolding pdx ptx pgoff pgaddr
pgaddr-parts la h =
    let d : ℕ = la / 2 ^ 22 % 2 ^ 10 in
    let t : ℕ = la / 2 ^ 12 % 2 ^ 10 in
    let e : bit_or (d * 2 ^ 22) (t * 2 ^ 12) ≡ d * 2 ^ 22 + t * 2 ^ 12 =
      bit_or-fields 22 d (t * 2 ^ 12) (omega arith) in
    let f : d * 2 ^ 22 + t * 2 ^ 12 ≡ (d * 2 ^ 10 + t) * 2 ^ 12 = omega arith in
    ap (λ x. bit_or x (la % 2 ^ 12)) (e ∙ f)
    ∙ bit_or-fields 12 (d * 2 ^ 10 + t) (la % 2 ^ 12) (omega arith)
    ∙ omega arith

-- The base that a segment descriptor spells over its three fields.
abbrev pub segment_base : Segdesc → ℕ
segment_base d = d.sd_base_15_0 + d.sd_base_23_16 * 2 ^ 16 + d.sd_base_31_24 * 2 ^ 24

abbrev pub segment_limit : Segdesc → ℕ
segment_limit d = d.sd_lim_15_0 + d.sd_lim_19_16 * 2 ^ 16

-- For a base and a limit below 2 ^ 32, the descriptors of SEG and SEG16 spell the base over
-- their three fields; the limit they spell is that of SEG in pages, and that of SEG16 modulo 2
-- ^ 20.
pub segment_parts :
    (type base lim dpl : ℕ)
    → base < 2 ^ 32
    → lim < 2 ^ 32
    → (segment_base (seg type base lim dpl) ≡ base)
      × (segment_limit (seg type base lim dpl) ≡ lim / 2 ^ 12)
      × (segment_base (seg16 type base lim dpl) ≡ base)
      × (segment_limit (seg16 type base lim dpl) ≡ lim % 2 ^ 20)
unfolding seg seg16
segment_parts type base lim dpl hb hl = omega arith

abbrev pub gate_offset : Gatedesc → ℕ
gate_offset g = g.gd_off_15_0 + g.gd_off_31_16 * 2 ^ 16

pub gate_parts : (istrap : Bool) (sel off dpl : ℕ) → gate_offset (setgate istrap sel off dpl) ≡ off
unfolding setgate
gate_parts istrap sel off dpl = omega arith
