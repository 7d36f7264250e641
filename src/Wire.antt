-- ===== src/Wire.antt =====
-- The bytes on the wire: numbers in either byte order, and the two headers of include/util.h.
pub mod Bytes
pub mod Header
pub mod Message
