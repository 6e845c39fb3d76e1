-- ===== src/Lib.antt =====
-- A verification library of the teaching operating system of this repository: its file system, its
-- processes and system calls, its drivers, and the game that runs on it.
--
-- The program. boot/main.c loads the kernel from the disk image. kernel/init.c sets up the devices
-- (kernel/serial.c, kernel/timer.c, kernel/irq.c), the descriptor tables (kernel/trap.c) and the file
-- system (kernel/fs.c over kernel/ide.c), loads the first program and starts it. From then on the
-- kernel is entered by traps only: kernel/trap.c looks at the number and calls the system calls of
-- kernel/syscall.c, the scheduler of kernel/sched.c or the user's handlers. A process is a PCB
-- (kernel/pcb.c) with its own 4 MB of memory (kernel/pmap.c); kernel/sem.c has the semaphores. The
-- program is a game of hangman (game/).
--
-- The files.
--   Prelude: names of the libraries, Boolean tests, words of 32 bits with their wrap, arrays as
--     functions, single bits, and the runs of kernel code: a value with the state reached (`ok`), a
--     panic, an access outside an array (`fault`), or a wait that never ends (`hang`).
--   LibString: lib/string.c.
--   Fs: kernel/fs.c and kernel/fs.h. Fs.Layout has the structures on the disk and their bytes,
--     Fs.State the globals (`bitmap`, `dir`, `fd_pool` and the disk behind them), Fs.Alloc
--     `find_empty_inode`, Fs.Cache the inode and the block that a descriptor holds, Fs.Open
--     `fs_open`, Fs.Transfer `fs_init`, `fs_flush`, `fs_read`, `fs_write`, `fs_lseek`, `fs_close`.
--     Fs.Files has the file as a client sees it, and `fs_read` against it.
--   Mmu: inc/mmu.h.
--   Device: Device.Ports is kernel/serial.c, kernel/timer.c and kernel/irq.c, Device.Ide kernel/ide.c
--     and the disk routines of boot/main.c, Device.Printk kernel/printk.c.
--   Kernel: Kernel.State has the globals of the kernel, Kernel.Entrypgdir is kernel/entrypgdir.c,
--     Kernel.Pmap kernel/pmap.c, Kernel.Sched kernel/pcb.c, kernel/sem.c and kernel/sched.c,
--     Kernel.Syscall kernel/syscall.c, Kernel.Trap kernel/trap.c; Kernel.Frame says which operations
--     leave the processes alone.
--   Loader: boot/main.c, over the physical memory and the ports of the disk.
--   Start: kernel/init.c and inc/elf.h, over the state of the whole machine.
--   Game: game/keyboard.c, game/rand.c and game/effect.c; Game.Round is game/game.c, Game.Video
--     game/video.c and inc/video.h, Game.Font game/font.c, Game.Screens game/draw.c, Game.Loop the
--     main loop of game/game.c, Game.Calls game/syscall.c.
--   The modules named Tests run the theorems on concrete states.
--
-- Conventions. A handler that leaves by `pcb_exec`, which does not return, ends in `exec i`; one that
-- returns ends in `back v`. An int is a word of 32 bits or, in the file system, an integer (`pos`,
-- `negsuc`); where the code compares ints the sign is read from the top bit. The kernel's own messages
-- (`printk`) are left out of the handlers: they change no state of the kernel.
--
-- Bounds and fuel. `sched_process` and `sys_sem_wait` call each other, and the scheduler's loop is
-- endless: it takes fuel for its rounds, and without it the run is `hang`. Loops over arrays take
-- the rounds that the code's own bound gives. A search for the lowest free bit takes 32 rounds, one
-- for each bit of the word; the loops of `fs_read` and `fs_write` move a byte at least in each
-- round, so their length is enough fuel; `convert` writes into a buffer of 49 characters. A game
-- takes a round for each wait and for each step, 4904 at most. Waits for a device take the number
-- of polls that are allowed.
--
-- Parameters. What the devices answer, where the linker puts the page tables, what the user's
-- handlers and an interrupt during a `hlt` do, what the processor saves at a system call, and the
-- words of the game are arguments of the model, and so are the interrupts in a game: a list for
-- each of its waits, and one for each moment at which interrupts may come while it computes. What
-- the uninitialised `found` of game/effect.c holds is an argument too, with a value for each try.
-- The fields `tried` and `moment` of Game, `reads`, `blocks` and `sent_at` of Ports only count, or
-- note when something was done: no operation of the code depends on them but through the
-- arguments of the model.
--
-- Not modelled. The assembly of boot, entry and trap stubs, but for the frame that a system call
-- leaves; the loading of segment registers; the processes that the game's `main` forks; the tools
-- of util/.
mod Prelude
pub mod LibString
pub mod Fs
pub mod Mmu
pub mod Start
pub mod Loader
pub mod Device
pub mod Kernel
pub mod Game
