-- ===== src/Runtime.antt =====
-- crates/orlando-runtime: the silo's registry of activations.
pub mod Directory
