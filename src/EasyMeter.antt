-- ===== src/EasyMeter.antt =====
-- The EBZ meter: src/easy_meter.cpp.
pub mod Telegram
pub mod Obis
pub mod Values
pub mod Loop
pub mod Port
