-- ===== src/Examples.antt =====
-- The theorems at concrete configurations, servers and streams.
mod Site
mod Readers
mod Slave
mod Start
mod Documents
mod Database
mod Streams
mod Session
mod Broker
