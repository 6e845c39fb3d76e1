-- ===== src/Kernel.antt =====
-- kernel/: processes, page tables, semaphores, the scheduler, system calls and traps.
pub mod State
pub mod Entrypgdir
pub mod Pmap
pub mod Frame
pub mod Sched
pub mod Syscall
pub mod Trap
pub mod Tests
