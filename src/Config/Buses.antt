-- ===== src/Config/Buses.antt =====
-- `deriveBuses` and `deriveDeviceRegistry` of src/config_yaml.cpp: what is made of the sections.
pub mod Derive
pub mod Fold
pub mod Unique
pub mod Lookup
