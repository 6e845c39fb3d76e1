-- ===== src/Device.antt =====
-- kernel/serial.c, kernel/timer.c, kernel/irq.c, kernel/ide.c and kernel/printk.c: the drivers.
pub mod Ports
pub mod Ide
pub mod Printk
mod Tests
