-- ===== src/Options.antt =====
-- libvfuzz-runtime/src/options: what the command line asks for.
pub mod AddRules
