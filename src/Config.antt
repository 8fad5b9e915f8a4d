-- ===== src/Config.antt =====
-- src/config_yaml.cpp and include/config_yaml.h: the configuration that the bridge starts from.
pub mod Types
pub mod Yaml
pub mod Names
pub mod Parse
pub mod Validate
pub mod Sections
pub mod Services
pub mod Document
pub mod Load
pub mod Buses
