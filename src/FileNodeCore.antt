-- ===== src/FileNodeCore.antt =====
-- onestore/file_node_core.py: one node of a file node list.
mod Defs
pub mod NodeHeader
pub mod Extent
pub use Defs.*
unfoldable pub use Defs.{
  is_chunk_terminator, node_header, parse_file_node_header, parse_payload, read_payload, parse_body,
  parse_terminator, node_with_header, parse_file_node, validate_chunk_ref_in_file, check_node,
}
