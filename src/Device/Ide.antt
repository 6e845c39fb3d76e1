-- ===== src/Device/Ide.antt =====
-- kernel/ide.c and inc/ide.h, and the disk routines of boot/main.c: sectors over the ports of the
-- IDE controller. `insl` and `outsl` are one instruction each.
pub mod Status
pub mod Sectors
use nju_oslab.Prelude.{
  ℕ, zero, suc, ◌+◌, ◌*◌, ◌/◌, ◌%◌, ◌^◌, Bool, true, false, not, ◌&&◌, ◌||◌, List, [], ◌∷◌, ltb,
  leb, ◌==◌, if◌then◌else◌, ok, hang, M, pure, my_assert, ◌>>=◌, ◌>>◌, copy, minus_one,
}
use nju_oslab.Device.Ports.{Ports, PortsM, inb, outb}

abbrev pub sectsize : ℕ
sectsize = 512

-- `insl(0x1F0, dst, SECTSIZE/4)`, with the block as the answer
unfoldable pub insl : PortsM (ℕ → ℕ)
insl s = ok (s.sector s.written s.reads s.blocks) (record s { blocks = s.blocks + 1 })

unfoldable pub outsl : (ℕ → ℕ) → PortsM (Unit {0})
outsl block s = ok tt (record s { stored = block ∷ s.stored })

-- `(r & (IDE_BSY|IDE_DRDY)) == IDE_DRDY`
unfoldable pub is_drdy : ℕ → Bool
is_drdy r = r / 64 % 4 == 1

-- `(r & (IDE_DF|IDE_ERR)) != 0`
unfoldable pub is_failed : ℕ → Bool
is_failed r = not (r / 32 % 2 == 0) || not (r % 2 == 0)

-- The loop of `ide_wait_ready`, with the polls that are left; the answer is the last r.
unfoldable pub poll_ready : ℕ → PortsM ℕ
poll_ready zero s = hang
poll_ready (suc polls) s =
    let again = poll_ready polls in (do r ← inb 0x1F7; if is_drdy r then pure r else again) s

unfoldable pub ide_wait_ready : ℕ → Bool → PortsM ℕ
ide_wait_ready polls check_error = do
  r ← poll_ready polls
  pure (if check_error && is_failed r then minus_one else 0)

-- The registers that `ide_read` and `ide_write` fill: the count, the sector in four parts, the
-- command. `0xE0 | x` at an x below 16 is the sum.
unfoldable pub send_command : ℕ → ℕ → ℕ → PortsM (Unit {0})
send_command sec_idx sec_num command = do
  outb 0x1F2 sec_num
  outb 0x1F3 (sec_idx % 256)
  outb 0x1F4 (sec_idx / 2 ^ 8 % 256)
  outb 0x1F5 (sec_idx / 2 ^ 16 % 256)
  outb 0x1F6 (0xE0 + sec_idx / 2 ^ 24 % 16)
  outb 0x1F7 command

-- `r < 0`, at an int
abbrev pub is_negative : ℕ → Bool
is_negative r = leb (2 ^ 31) r

-- The loop of `ide_read`, with the sectors left and the place in `dst`.
unfoldable pub read_sectors : ℕ → ℕ → ℕ → (ℕ → ℕ) → PortsM (ℕ × (ℕ → ℕ))
read_sectors polls zero at dst = pure (0, dst)
read_sectors polls (suc n) at dst = do
  r ← ide_wait_ready polls true
  if is_negative r
      then pure (r, dst)
      else (do block ← insl; read_sectors polls n (at + sectsize) (copy dst at block 0 sectsize))

unfoldable pub ide_read : ℕ → ℕ → (ℕ → ℕ) → ℕ → PortsM (ℕ × (ℕ → ℕ))
ide_read polls sec_idx dst sec_num = do
  my_assert (leb sec_num 256)
  _ ← ide_wait_ready polls false
  send_command sec_idx sec_num 0x20
  read_sectors polls sec_num 0 dst

unfoldable pub write_sectors : ℕ → ℕ → ℕ → (ℕ → ℕ) → PortsM ℕ
write_sectors polls zero at src = pure 0
write_sectors polls (suc n) at src = do
  r ← ide_wait_ready polls true
  if is_negative r
      then pure r
      else (do outsl (copy (λ _. 0) 0 src at sectsize); write_sectors polls n (at + sectsize) src)

unfoldable pub ide_write : ℕ → ℕ → (ℕ → ℕ) → ℕ → PortsM ℕ
ide_write polls secno src sec_num = do
  my_assert (leb sec_num 256)
  _ ← ide_wait_ready polls false
  send_command secno sec_num 0x30
  write_sectors polls sec_num 0 src

-- boot/main.c: `(inb(0x1F7) & 0xC0) == 0x40` is the same test.
unfoldable pub waitdisk : ℕ → PortsM (Unit {0})
waitdisk polls = do _ ← poll_ready polls; pure tt

-- `(offset >> 24) | 0xE0` in the byte that is sent: the three top bits are set.
unfoldable pub readsect : ℕ → ℕ → PortsM (ℕ → ℕ)
readsect polls offset = do
  waitdisk polls
  outb 0x1F2 1
  outb 0x1F3 offset
  outb 0x1F4 (offset / 2 ^ 8)
  outb 0x1F5 (offset / 2 ^ 16)
  outb 0x1F6 (0xE0 + offset / 2 ^ 24 % 2 ^ 5)
  outb 0x1F7 0x20
  waitdisk polls
  insl
