-- ===== src/Resources.antt =====
-- crates/fabric-backends/src/resources.rs: the operator's bindings and their resolution.
pub mod Configs
pub mod Binding
pub mod Table
pub mod Clamp
pub mod Spec
pub mod Bounds
