-- ===== src/CommonTypes.antt =====
-- onestore/common_types.py, one module for each class.
pub mod ExtendedGuid
pub mod CompactId
pub mod Jcid
pub mod StorageString
