-- ===== src/ObjectData.antt =====
-- onestore/object_data.py: the property sets of objects.
pub mod Streams
pub mod Values
pub mod Decode
pub mod Ends
pub mod Used
pub mod Oids
