-- ===== src/Util.antt =====
-- libvfuzz-core/src/util: the random source, the history of mutations and the state that the
-- components thread through their calls.
pub mod Io
pub mod Rand
pub mod History
pub mod World
pub mod Text
pub mod AllocationTracker
pub mod MallocFreeTracer
