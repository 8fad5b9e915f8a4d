-- ===== src/Config/Validate.antt =====
-- `validateConfig` of src/config_yaml.cpp: the checks across sections. A `std::map` is an association
-- list, and a loop that skips entries by `continue` runs over the list of the others.
pub mod Emplace
pub mod Refs
pub mod Checks
pub mod Spec
pub mod Lines
pub mod Slaves
pub mod Exact
