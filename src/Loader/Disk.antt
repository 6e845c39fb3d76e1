-- ===== src/Loader/Disk.antt =====
-- `readsect` of boot/main.c at a disk that serves its sectors.
use nju_oslab.Prelude.{
  ℕ, suc, ◌+◌, ◌/◌, ◌%◌, ◌^◌, ◌<◌, ◌≡◌, refl, ap, ◌∙◌, true, List, ◌∷◌, arith, Run, add32, Returns,
  returns,
}
use nju_oslab.Fs.Layout.{Sector, fsoffset_data}
use nju_oslab.Fs.Files.{data_sector}
use nju_oslab.Device.Ports.{Ports, inb, outb}
use nju_oslab.Device.Ide.{insl, is_drdy, poll_ready, waitdisk, readsect}
use nju_oslab.Device.Ide.Sectors.{lba}
use nju_oslab.Loader.{Loader, at_ports, read_data}

-- What is sent for a read of one sector, the last byte first.
abbrev pub one_sector : (low mid high top : ℕ) (before : List (ℕ × ℕ)) → List (ℕ × ℕ)
one_sector low mid high top before =
    (0x1F7, 0x20) ∷ (0x1F6, top) ∷ (0x1F5, high) ∷ (0x1F4, mid) ∷ (0x1F3, low) ∷ (0x1F2, 1) ∷ before

-- The controller is ready whenever it is asked, and hands over the sector that it was asked for, by
-- its number on the first drive.
pub record Serves (disk : ℕ → Sector) (s : Ports) : Type 0 where
  pub drdy : (t : ℕ) → is_drdy (s.answer 0x1F7 t) ≡ true
  pub block :
      (low mid high top : ℕ) (before : List (ℕ × ℕ)) (r n : ℕ)
      → top / 16 ≡ 14
      → s.sector (one_sector low mid high top before) r n ≡ disk (lba low mid high top)

pub readsect-Serves :
    (disk : ℕ → Sector) (polls offset : ℕ) (s : Ports)
    → offset < 2 ^ 28
    → Serves disk s
    → Returns (λ b t. (b ≡ disk offset) × Serves disk t) (readsect (suc polls) offset s)
unfolding readsect waitdisk poll_ready inb outb insl
readsect-Serves disk polls offset s lt h =
    rw (h.drdy s.reads, h.drdy (s.reads + 1))
      (returns (
        h.block (offset % 256) (offset / 2 ^ 8 % 256) (offset / 2 ^ 16 % 256)
              ((0xE0 + offset / 2 ^ 24 % 2 ^ 5) % 256) s.written (s.reads + 1 + 1) s.blocks
              (omega arith)
            ∙ ap disk (omega arith),
        record { drdy = h.drdy; block = h.block },
      ))

pub at_ports-Returns :
    {A : Type 0} {Q : A → Loader → Type 0} (r : Run Ports A) (s : Loader) (P : A → Ports → Type 0)
    → Returns P r
    → ((a : A) (t : Ports) → P a t → Q a (record s { ports = t }))
    → Returns Q (at_ports s r)
at_ports-Returns r s P (returns p) next = returns (next _ _ p)

-- A step that reads a sector of the data area and leaves the memory alone.
pub read_data-Serves :
    (disk : ℕ → Sector) (polls block : ℕ) (s : Loader)
    → block < 2 ^ 27
    → Serves disk s.ports
    → Returns
        (λ b t. (b ≡ data_sector disk block) × ((t.ram ≡ s.ram) × Serves disk t.ports))
        (read_data (suc polls) block s)
unfolding read_data
read_data-Serves disk polls block s lt h =
    let e : add32 fsoffset_data block ≡ (block + fsoffset_data) % 2 ^ 28 = omega (arith, lt) in
    at_ports-Returns _ s (λ b t. (b ≡ disk (add32 fsoffset_data block)) × Serves disk t)
      (readsect-Serves disk polls (add32 fsoffset_data block) s.ports (omega arith) h)
      (λ b t p. (p.0 ∙ ap disk e, (refl, p.1)))
