-- ===== src/ObjectSpace.antt =====
-- onestore/object_space.py: object spaces, their revisions and their global id tables.
pub mod Sequences
pub mod Gids
pub mod Tables
pub mod Meaning
pub mod Destinations
pub mod Summaries
pub mod Lists
pub mod Contents
pub mod Revisions
pub mod Spaces
pub mod Resolved
pub mod Order
pub mod Dependencies
pub mod Items
pub mod Roles
pub mod Declarations
pub mod Declared
