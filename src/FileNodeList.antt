-- ===== src/FileNodeList.antt =====
-- onestore/file_node_list.py: a list of nodes, a chain of fragments of the file.
mod Defs
mod Lists
pub mod Loop
pub mod Ends
pub use Defs.*
pub use Lists.*
unfoldable pub use Defs.{
  parse_list_header, is_used_up, use_one, check_in_fragment, capture, read_node, with_node,
  after_node, node_or_padding, read_nodes, parse_chunk, parse_fragment,
}
