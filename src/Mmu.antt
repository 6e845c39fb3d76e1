-- ===== src/Mmu.antt =====
-- inc/mmu.h: the parts of an address, and the descriptors of segments and gates.
pub mod Laws
use nju_oslab.Prelude.{ℕ, ◌+◌, ◌-◌, ◌*◌, ◌/◌, ◌%◌, ◌^◌, bit_or, Bool, ◌==◌, if◌then◌else◌}

abbrev pub kernbase : ℕ
kernbase = 0xF000_0000

abbrev pub npdentries : ℕ
npdentries = 1024

abbrev pub nptentries : ℕ
nptentries = 1024

abbrev pub pgsize : ℕ
pgsize = 4096

abbrev pub ptsize : ℕ
ptsize = pgsize * nptentries

-- Shifts and masks at a uintptr_t, as quotients and remainders.
unfoldable pub pgnum : ℕ → ℕ
pgnum la = la / 2 ^ 12

unfoldable pub pdx : ℕ → ℕ
pdx la = la / 2 ^ 22 % 2 ^ 10

unfoldable pub ptx : ℕ → ℕ
ptx la = la / 2 ^ 12 % 2 ^ 10

unfoldable pub pgoff : ℕ → ℕ
pgoff la = la % 2 ^ 12

unfoldable pub pgaddr : ℕ → ℕ → ℕ → ℕ
pgaddr d t o = bit_or (bit_or (d * 2 ^ 22) (t * 2 ^ 12)) o

-- `pte & ~0xFFF`
unfoldable pub pte_addr : ℕ → ℕ
pte_addr pte = pte / 2 ^ 12 * 2 ^ 12

abbrev pub pte_p : ℕ
pte_p = 0x001

abbrev pub pte_w : ℕ
pte_w = 0x002

abbrev pub pte_u : ℕ
pte_u = 0x004

pub record Segdesc : Type 0 where
  pub sd_lim_15_0 : ℕ
  pub sd_base_15_0 : ℕ
  pub sd_base_23_16 : ℕ
  pub sd_type : ℕ
  pub sd_s : ℕ
  pub sd_dpl : ℕ
  pub sd_p : ℕ
  pub sd_lim_19_16 : ℕ
  pub sd_avl : ℕ
  pub sd_rsv1 : ℕ
  pub sd_db : ℕ
  pub sd_g : ℕ
  pub sd_base_31_24 : ℕ

unfoldable pub seg_null : Segdesc
seg_null = record {
  sd_lim_15_0 = 0;
  sd_base_15_0 = 0;
  sd_base_23_16 = 0;
  sd_type = 0;
  sd_s = 0;
  sd_dpl = 0;
  sd_p = 0;
  sd_lim_19_16 = 0;
  sd_avl = 0;
  sd_rsv1 = 0;
  sd_db = 0;
  sd_g = 0;
  sd_base_31_24 = 0;
}

-- A segment with its limit in pages.
unfoldable pub seg : (type base lim dpl : ℕ) → Segdesc
seg type base lim dpl = record {
  sd_lim_15_0 = lim / 2 ^ 12 % 2 ^ 16;
  sd_base_15_0 = base % 2 ^ 16;
  sd_base_23_16 = base / 2 ^ 16 % 2 ^ 8;
  sd_type = type;
  sd_s = 1;
  sd_dpl = dpl;
  sd_p = 1;
  sd_lim_19_16 = lim / 2 ^ 28;
  sd_avl = 0;
  sd_rsv1 = 0;
  sd_db = 1;
  sd_g = 1;
  sd_base_31_24 = base / 2 ^ 24;
}

-- A segment with its limit in bytes; the field of four bits cuts the limit off.
unfoldable pub seg16 : (type base lim dpl : ℕ) → Segdesc
seg16 type base lim dpl = record {
  sd_lim_15_0 = lim % 2 ^ 16;
  sd_base_15_0 = base % 2 ^ 16;
  sd_base_23_16 = base / 2 ^ 16 % 2 ^ 8;
  sd_type = type;
  sd_s = 1;
  sd_dpl = dpl;
  sd_p = 1;
  sd_lim_19_16 = lim / 2 ^ 16 % 2 ^ 4;
  sd_avl = 0;
  sd_rsv1 = 0;
  sd_db = 1;
  sd_g = 0;
  sd_base_31_24 = base / 2 ^ 24;
}

pub record Gatedesc : Type 0 where
  pub gd_off_15_0 : ℕ
  pub gd_sel : ℕ
  pub gd_args : ℕ
  pub gd_rsv1 : ℕ
  pub gd_type : ℕ
  pub gd_s : ℕ
  pub gd_dpl : ℕ
  pub gd_p : ℕ
  pub gd_off_31_16 : ℕ

abbrev pub sts_ig32 : ℕ
sts_ig32 = 0xE

abbrev pub sts_tg32 : ℕ
sts_tg32 = 0xF

unfoldable pub setgate : Bool → (sel off dpl : ℕ) → Gatedesc
setgate istrap sel off dpl = record {
  gd_off_15_0 = off % 2 ^ 16;
  gd_sel = sel;
  gd_args = 0;
  gd_rsv1 = 0;
  gd_type = if istrap then sts_tg32 else sts_ig32;
  gd_s = 0;
  gd_dpl = dpl;
  gd_p = 1;
  gd_off_31_16 = off / 2 ^ 16;
}
