-- ===== src/Lib.antt =====
-- Aspose.Note FOSS for Python: the reader of OneStore files.
--
-- The program reads a OneNote section file in layers. A bounded cursor over bytes
-- (src/aspose/note/_internal/onestore/io.py) is the base of all parsers; chunk references
-- (chunk_refs.py) point into the file; the file header (header.py) holds the references of the
-- transaction log (txn_log.py) and of the root file node list (file_node_list.py). The log says how
-- many nodes of each list are committed. A list is a chain of fragments of nodes (file_node_core.py),
-- and the typed reading of a node is in file_node_types.py. A root list names the object spaces; each has a
-- list of revisions with object groups and global id tables (object_space.py), and the objects hold
-- property sets (object_data.py). A list of hashes covers chunks of the file (hashed_chunk_list.py),
-- and embedded files stand in a store (file_data.py). The MS-ONE entities, the document above them and
-- the calls of third-party packages are not modelled.
--
-- Context: errors.py and parse_context.py. Parser: the monad of the parsers, a state of a reader and
-- a context, with exceptions as values and `stuck` for a loop out of fuel. Io: the data of the reader
-- and its pure functions, `Io.Bits` and `Io.Endian` on unpack_bits and the byte order. Read: the
-- cursor operations and the file's size; `Read.Fields` the notion of a parser that reads a fixed
-- number of bytes. ChunkRefs: one module for each class. CommonTypes: likewise. Header: Header.parse,
-- its parts named after the groups of checks. Dict: dictionaries with integer keys. TxnLog: the
-- fragment parser and the loop of parse_transaction_log. FileNodeCore: parse_file_node and its parts.
-- FileNodeList: fragments and lists. FileNodeTypes: node types by group, `Typed` the routing table and
-- parse_typed_file_node, `Root` the manifests of the root list. ObjectData: `Streams` and `Values` the
-- data and the structural parse, `Decode` decode_property_set. ObjectSpace: `Sequences` and `Gids` the
-- global id tables, `Summaries` the dataclasses, `Lists` the object groups, `Contents` a revision
-- manifest, `Revisions` a list of them, `Spaces` and `Resolved` the entry points. HashedChunks: the
-- hashed chunk list. FileData: the embedded files. Runs: concrete runs.
--
-- Parser.Ensures and Parser.Strictly state what holds of the results of a parser, in general and in the
-- strict mode; Read.Progress states how far a parser moves and that it does not run out of fuel.
--
-- Numbers are natural: the code passes only sizes and offsets that are not negative, and numbers read
-- from bytes are unsigned. Subtraction is used where a guard in front of it makes it exact, or where the
-- result is compared with zero only. Messages leave out interpolated numbers. Arguments `ctx` that
-- default to None are always given.
--
-- Fuel: `read_entries` is given one more than the bytes of its table, of which each round takes 8.
-- `read_nodes` is given one more than the position of the next fragment's reference; a round takes at
-- least 4 bytes. `follow`, the loop of the transaction log, takes its fuel as an argument, since the
-- code's loop has no bound. The loop over the fragments of a list has its 4096 rounds in the code. The
-- decoding of a property set is given one more than the length of rgData; a nested set takes two bytes
-- at least. The loops over the nodes of an object group and of a revision manifest are given the number
-- of nodes; a round takes one at least. Python's limit on recursion is not modelled.
--
-- Not modelled: iter_u32_bits, the conversions to UUID and text, crc.py, the parsing of the text of a
-- file data reference, summary.py, and the packages ms_one and onenote. MD5 is a parameter of the
-- hashed chunk list.
pub mod Prelude
pub mod Context
pub mod Io
pub mod Parser
pub mod Read
pub mod ChunkRefs
pub mod CommonTypes
pub mod Header
pub mod Dict
pub mod TxnLog
pub mod FileNodeCore
pub mod FileNodeList
pub mod FileNodeTypes
pub mod ObjectData
pub mod ObjectSpace
pub mod HashedChunks
pub mod FileData
pub mod Runs
