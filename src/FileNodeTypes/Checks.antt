-- ===== src/FileNodeTypes/Checks.antt =====
-- The checks that the node-type parsers of onestore/file_node_types.py have in common.
use aspose_note_foss_for_pyt.Prelude.{ℕ, String, List, not, ◌||◌, none, some, length, ◌==◌}
use aspose_note_foss_for_pyt.Context.{format_error}
use aspose_note_foss_for_pyt.Parser.{M, pure, raise, raise_if, violation_if, with_reader, ◌>>=◌}
use aspose_note_foss_for_pyt.Read.{binary_reader, remaining}
use aspose_note_foss_for_pyt.ChunkRefs.Node.{FileNodeChunkReference}
use aspose_note_foss_for_pyt.CommonTypes.ExtendedGuid
use aspose_note_foss_for_pyt.CommonTypes.ExtendedGuid.{ExtendedGuid}
use aspose_note_foss_for_pyt.FileNodeCore.{FileNode}

-- the base type, an error in strict mode and a warning otherwise
unfoldable pub require_base_type : FileNode → ℕ → String → M (Unit {0})
require_base_type node expected message =
    violation_if (not (node.header.base_type == expected)) message (some node.header.offset)

-- the base type, always an error
unfoldable pub base_type_is : FileNode → ℕ → String → M (Unit {0})
base_type_is node expected message =
    raise_if (not (node.header.base_type == expected))
      (format_error message (some node.header.offset))

unfoldable pub forbid_reference : FileNode → String → M (Unit {0})
forbid_reference node message = elim node.chunk_ref [
  | none ↦ pure tt
  | some _ ↦ raise (format_error message (some node.header.offset))
]

unfoldable pub the_reference : FileNode → String → M FileNodeChunkReference
the_reference node message = elim node.chunk_ref [
  | none ↦ raise (format_error message (some node.header.offset))
  | some ref ↦ pure ref
]

unfoldable pub require_length : FileNode → ℕ → String → M (Unit {0})
require_length node n message =
    raise_if (not (length node.fnd == n)) (format_error message (some node.header.offset))

-- `BinaryReader(node.fnd)` and what is read from it
unfoldable pub on_fnd {ℓ} : {A : Type ℓ} → FileNode → M A → M A
on_fnd node m = do r ← binary_reader node.fnd 0 none 0; with_reader r m

unfoldable pub consumed : FileNode → String → M (Unit {0})
unfolding remaining
consumed node message = do
  left ← remaining
  raise_if (not (left == 0)) (format_error message (some node.header.offset))

unfoldable pub reject_zero : FileNode → ExtendedGuid → String → M (Unit {0})
reject_zero node g message =
    raise_if (ExtendedGuid.is_zero g) (format_error message (some node.header.offset))

-- base type 1 or 2, an error in strict mode and a warning otherwise
unfoldable pub require_reference_type : FileNode → String → M (Unit {0})
require_reference_type node message =
    violation_if (not (node.header.base_type == 1 || node.header.base_type == 2)) message
      (some node.header.offset)

-- `BinaryReader(bytes)` and what is read from it
unfoldable pub on_bytes {ℓ} : {A : Type ℓ} → List ℕ → M A → M A
on_bytes bytes m = do r ← binary_reader bytes 0 none 0; with_reader r m
