-- ===== src/Exec.antt =====
-- libvfuzz-runtime/src/exec: what runs the target on clusters, and when.
pub mod Conduits
pub mod Executor
pub mod Manager
pub mod Loading
