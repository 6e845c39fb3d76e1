-- ===== src/Device/Ports.antt =====
-- kernel/serial.c, kernel/timer.c and kernel/irq.c, over `inb` and `outb` of inc/x86.h, which are
-- one instruction each: what the devices answer is a parameter of the state.
pub mod Polls
use nju_oslab.Prelude.{
  ℕ, zero, suc, ◌+◌, ◌*◌, ◌/◌, ◌%◌, Bool, true, false, List, [], ◌∷◌, ◌==◌, if◌then◌else◌, ok, hang,
  M, pure, ◌>>=◌, ◌>>◌,
}

-- What the processor and the devices have said to each other. `answer p t` is what an `inb` of the
-- port p gets when t reads have been made before it; `written` has the bytes sent, the last one
-- first, and `sent_at` how many reads had been made when each was sent; `sector w r n` is the block
-- that the disk hands over when w has been sent, r reads have been made and n blocks have been handed
-- over, `blocks` is that number, and `stored` the blocks that it was handed, the last one first.
pub record Ports : Type 0 where
  pub answer : ℕ → ℕ → ℕ
  pub reads : ℕ
  pub written : List (ℕ × ℕ)
  pub sent_at : List ℕ
  pub sector : List (ℕ × ℕ) → ℕ → ℕ → ℕ → ℕ
  pub blocks : ℕ
  pub stored : List (ℕ → ℕ)

abbrev pub PortsM : Type 0 → Type 0
PortsM A = M Ports A

unfoldable pub inb : ℕ → PortsM ℕ
inb port s = ok (s.answer port s.reads) (record s { reads = s.reads + 1 })

unfoldable pub outb : ℕ → ℕ → PortsM (Unit {0})
outb port byte s =
    ok tt (record s { written = (port, byte % 256) ∷ s.written; sent_at = s.reads ∷ s.sent_at })

abbrev pub com1 : ℕ
com1 = 0x3f8

unfoldable pub init_serial : PortsM (Unit {0})
init_serial = do
  outb (com1 + 1) 0x00
  outb (com1 + 3) 0x80
  outb (com1 + 0) 0x03
  outb (com1 + 1) 0x00
  outb (com1 + 3) 0x03
  outb (com1 + 2) 0xC7
  outb (com1 + 4) 0x0B

-- `inb(PORT + 5) & 0x20`, as a test
unfoldable pub is_serial_idle : PortsM Bool
is_serial_idle = do r ← inb (com1 + 5); pure (if r / 32 % 2 == 0 then false else true)

-- `while (!is_serial_idle());`, with the polls that are left.
unfoldable pub wait_idle : ℕ → PortsM (Unit {0})
wait_idle zero s = hang
wait_idle (suc polls) s =
    let again = wait_idle polls in (do idle ← is_serial_idle; if idle then pure tt else again) s

unfoldable pub serial_printc : ℕ → ℕ → PortsM ℕ
serial_printc polls c = do wait_idle polls; outb com1 c; pure 1

abbrev pub pit_frequence : ℕ
pit_frequence = 1193182

abbrev pub hz : ℕ
hz = 100

-- `mode.val`: the bit fields of `union CmdByte`, the first one lowest.
unfoldable pub cmd_byte : (present_mode operate_mode access_mode channel : ℕ) → ℕ
cmd_byte present_mode operate_mode access_mode channel =
    present_mode % 2 + operate_mode % 8 * 2 + access_mode % 4 * 16 + channel % 4 * 64

unfoldable pub init_timer : PortsM (Unit {0})
init_timer = do
  let counter = pit_frequence / hz
  outb 0x43 (cmd_byte 0 2 3 0)
  outb 0x40 (counter % 256)
  outb 0x40 (counter / 256 % 256)

abbrev pub io_pic1 : ℕ
io_pic1 = 0x20

abbrev pub io_pic2 : ℕ
io_pic2 = 0xA0

abbrev pub pic_offset : ℕ
pic_offset = 32

unfoldable pub pic_init : PortsM (Unit {0})
pic_init = do
  outb (io_pic1 + 1) 0xFF
  outb (io_pic2 + 1) 0xFF
  outb io_pic1 0x11
  outb (io_pic1 + 1) pic_offset
  outb (io_pic1 + 1) 4
  outb (io_pic1 + 1) 0x3
  outb io_pic2 0x11
  outb (io_pic2 + 1) (pic_offset + 8)
  outb (io_pic2 + 1) 2
  outb (io_pic2 + 1) 0x03
  outb io_pic1 0x68
  outb io_pic1 0x0a
  outb io_pic2 0x68
  outb io_pic2 0x0a
