-- ===== src/Mutator.antt =====
-- libvfuzz-core/src/mutator: the mutators, which turn one chunk into another.
pub mod Base
pub mod Ranged
pub mod Edits
pub mod Container
pub mod Statistics
