-- ===== src/Device.antt =====
-- server/device/led, light and segment: the plugins that drive the GPIO pins.
pub mod Gpio
pub mod Led
pub mod Light
pub mod Segment
