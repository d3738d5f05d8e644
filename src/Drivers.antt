-- ===== src/Drivers.antt =====
-- The drivers of src/drivers, the file system reader of src/fs and the interrupt table of utils.
pub mod Rtc
pub mod Fat32
pub mod Screen
pub mod Timer
pub mod Disk
pub mod Interrupts
mod Tests
