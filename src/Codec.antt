-- ===== src/Codec.antt =====
-- The byte layout that the three Serialize and Deserialize pairs of libvfuzz-core/src/container
-- share: 64-bit little-endian words and raw bytes, written and read by memcpy at a position.
-- The host is 64-bit Linux on x86, so memcpy of a uint64_t moves eight bytes, lowest first.
pub mod Words
pub mod Cursor
pub mod Buffer
