-- ===== src/Firmware.antt =====
-- firmware_style_validation/: the ring buffer, the register mock and the fixed-point filter.
pub mod Filter
pub mod RingBuffer
pub mod Registers
