-- ===== src/FileNodeTypes.antt =====
-- onestore/file_node_types.py: the typed reading of a node, by its id.
pub mod Checks
pub mod Manifests
pub mod Revisions
pub mod GlobalIdTable
pub mod Entries
pub mod Groups
pub mod Declarations
pub mod Typed
pub mod Ids
pub mod Root
pub mod RootList
