-- ===== src/Readers.antt =====
-- The readers over libfronius: src/inverter_master.cpp and src/fronius_meter.cpp. What the library's getters
-- return is a parameter, a value or the error that `getOrThrow` throws.
pub mod Rounding
pub mod Json
pub mod Registration
pub mod Inverter
pub mod Meter
