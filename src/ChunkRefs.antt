-- ===== src/ChunkRefs.antt =====
-- onestore/chunk_refs.py: references to chunks of the file, one module for each class.
pub mod Fcr32
pub mod Fcr64
pub mod Fcr64x32
pub mod Node
