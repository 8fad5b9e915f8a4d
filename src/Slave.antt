-- ===== src/Slave.antt =====
-- src/meter_slave.cpp: the Modbus server that shows a meter's readings.
pub mod Registers
pub mod Compatible
pub mod Update
pub mod Serve
