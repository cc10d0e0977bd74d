-- ===== src/FileNodeTypes/Declarations.antt =====
-- The node types of onestore/file_node_types.py that declare and revise objects.
use aspose_note_foss_for_pyt.Prelude.{
  ℕ, String, Bool, not, some, List, ◌==◌, length, take, drop, true,
}
use aspose_note_foss_for_pyt.Context.{format_error}
use aspose_note_foss_for_pyt.Parser.{
  M, pure, raise_if, catch_format_error, violation_if, ◌>>=◌, ◌>>◌,
}
use aspose_note_foss_for_pyt.Read.{read_u8, read_u32}
use aspose_note_foss_for_pyt.ChunkRefs.Node.{FileNodeChunkReference}
use aspose_note_foss_for_pyt.CommonTypes.CompactId
use aspose_note_foss_for_pyt.CommonTypes.CompactId.{CompactId}
use aspose_note_foss_for_pyt.FileNodeCore.{FileNode}
use aspose_note_foss_for_pyt.FileNodeTypes.Checks.{
  require_reference_type, on_bytes, the_reference, require_length, on_fnd, consumed,
}
use aspose_note_foss_for_pyt.CommonTypes.Jcid
use aspose_note_foss_for_pyt.CommonTypes.Jcid.{Jcid}
use aspose_note_foss_for_pyt.Io.{low_bits, shr}
use aspose_note_foss_for_pyt.FileNodeTypes.GlobalIdTable.{first_byte}

pub record ObjectDeclaration2RefCountFnd : Type 0 where
  pub ref : FileNodeChunkReference
  pub oid : CompactId
  pub jcid : Jcid
  pub has_oid_references : Bool
  pub has_osid_references : Bool
  pub ref_count : ℕ

pub record ObjectDeclaration2LargeRefCountFnd : Type 0 where
  pub ref : FileNodeChunkReference
  pub oid : CompactId
  pub jcid : Jcid
  pub has_oid_references : Bool
  pub has_osid_references : Bool
  pub ref_count : ℕ

pub record ReadOnlyObjectDeclaration2RefCountFnd : Type 0 where
  pub base : ObjectDeclaration2RefCountFnd
  pub md5_hash : List ℕ

pub record ReadOnlyObjectDeclaration2LargeRefCountFnd : Type 0 where
  pub base : ObjectDeclaration2LargeRefCountFnd
  pub md5_hash : List ℕ

pub record ObjectRevisionWithRefCountFndx : Type 0 where
  pub ref : FileNodeChunkReference
  pub oid : CompactId
  pub has_oid_references : Bool
  pub has_osid_references : Bool
  pub ref_count : ℕ

pub record ObjectRevisionWithRefCount2Fndx : Type 0 where
  pub ref : FileNodeChunkReference
  pub oid : CompactId
  pub has_oid_references : Bool
  pub has_osid_references : Bool
  pub ref_count : ℕ

-- the four values that the body of a declaration stands for
pub record DeclarationBody : Type 0 where
  pub oid : CompactId
  pub jcid : Jcid
  pub has_oid_references : Bool
  pub has_osid_references : Bool

-- bool(flags & 0x01) and bool(flags & 0x02)
unfoldable pub flag : ℕ → ℕ → Bool
flag k flags = not (low_bits (shr flags k) 1 == 0)

pub record BodyFields : Type 0 where
  pub oid : CompactId
  pub jcid : Jcid
  pub flags : ℕ

unfoldable pub read_body : FileNode → M BodyFields
read_body node = do
  oid ← CompactId.parse
  jcid ← Jcid.parse
  flags ← read_u8
  consumed node "ObjectDeclaration2Body parse did not consume full payload"
  pure (record { oid = oid; jcid = jcid; flags = flags })

unfoldable pub parse_object_declaration2_body : FileNode → List ℕ → M DeclarationBody
parse_object_declaration2_body node body_bytes = do
  b ← on_bytes body_bytes (read_body node)
  violation_if (not (low_bits (shr b.flags 2) 6 == 0)) "ObjectDeclaration2Body.fReserved2 MUST be 0"
      (some node.header.offset)
  catch_format_error (Jcid.validate b.jcid) (λ m. violation_if true m (some node.header.offset))
  pure (record {
    oid = b.oid;
    jcid = b.jcid;
    has_oid_references = flag 0 b.flags;
    has_osid_references = flag 1 b.flags;
  })

-- a reference count of four bytes, in a reader of its own
unfoldable pub read_count : FileNode → String → M ℕ
read_count node message = do ref_count ← read_u32; consumed node message; pure ref_count

unfoldable pub parse_object_declaration2_refcount_fnd : FileNode → M ObjectDeclaration2RefCountFnd
parse_object_declaration2_refcount_fnd node = do
  require_reference_type node "ObjectDeclaration2RefCountFND MUST have BaseType==1 or BaseType==2"
  ref ← the_reference node "ObjectDeclaration2RefCountFND MUST contain a FileNodeChunkReference"
  require_length node 10 "ObjectDeclaration2RefCountFND payload MUST be 10 bytes"
  ref_count ← first_byte (drop 9 node.fnd)
  b ← parse_object_declaration2_body node (take 9 node.fnd)
  pure (record {
    ref = ref;
    oid = b.oid;
    jcid = b.jcid;
    has_oid_references = b.has_oid_references;
    has_osid_references = b.has_osid_references;
    ref_count = ref_count;
  })

unfoldable pub parse_object_declaration2_large_refcount_fnd :
    FileNode → M ObjectDeclaration2LargeRefCountFnd
parse_object_declaration2_large_refcount_fnd node = do
  require_reference_type node
      "ObjectDeclaration2LargeRefCountFND MUST have BaseType==1 or BaseType==2"
  ref ←
      the_reference node "ObjectDeclaration2LargeRefCountFND MUST contain a FileNodeChunkReference"
  require_length node 13 "ObjectDeclaration2LargeRefCountFND payload MUST be 13 bytes"
  ref_count ←
      on_bytes (drop 9 node.fnd)
        (read_count node "ObjectDeclaration2LargeRefCountFND parse did not consume full payload")
  b ← parse_object_declaration2_body node (take 9 node.fnd)
  pure (record {
    ref = ref;
    oid = b.oid;
    jcid = b.jcid;
    has_oid_references = b.has_oid_references;
    has_osid_references = b.has_osid_references;
    ref_count = ref_count;
  })

unfoldable pub parse_readonly_object_declaration2_refcount_fnd :
    FileNode → M ReadOnlyObjectDeclaration2RefCountFnd
parse_readonly_object_declaration2_refcount_fnd node = do
  require_reference_type node
      "ReadOnlyObjectDeclaration2RefCountFND MUST have BaseType==1 or BaseType==2"
  ref ←
      the_reference node
        "ReadOnlyObjectDeclaration2RefCountFND MUST contain a FileNodeChunkReference"
  require_length node 26 "ReadOnlyObjectDeclaration2RefCountFND payload MUST be 26 bytes"
  ref_count ← first_byte (drop 9 node.fnd)
  b ← parse_object_declaration2_body node (take 9 node.fnd)
  let md5_hash = take 16 (drop 10 node.fnd)
  raise_if (not (length md5_hash == 16)) (
      format_error "ReadOnlyObjectDeclaration2RefCountFND.md5Hash MUST be 16 bytes"
        (some node.header.offset))
  pure (record {
    base = record {
      ref = ref;
      oid = b.oid;
      jcid = b.jcid;
      has_oid_references = b.has_oid_references;
      has_osid_references = b.has_osid_references;
      ref_count = ref_count;
    };
    md5_hash = md5_hash;
  })

unfoldable pub parse_readonly_object_declaration2_large_refcount_fnd :
    FileNode → M ReadOnlyObjectDeclaration2LargeRefCountFnd
parse_readonly_object_declaration2_large_refcount_fnd node = do
  require_reference_type node
      "ReadOnlyObjectDeclaration2LargeRefCountFND MUST have BaseType==1 or BaseType==2"
  ref ←
      the_reference node
        "ReadOnlyObjectDeclaration2LargeRefCountFND MUST contain a FileNodeChunkReference"
  require_length node 29 "ReadOnlyObjectDeclaration2LargeRefCountFND payload MUST be 29 bytes"
  ref_count ←
      on_bytes (take 4 (drop 9 node.fnd)) (
        read_count node "ReadOnlyObjectDeclaration2LargeRefCountFND parse did not consume refcount")
  b ← parse_object_declaration2_body node (take 9 node.fnd)
  let md5_hash = take 16 (drop 13 node.fnd)
  raise_if (not (length md5_hash == 16)) (
      format_error "ReadOnlyObjectDeclaration2LargeRefCountFND.md5Hash MUST be 16 bytes"
        (some node.header.offset))
  pure (record {
    base = record {
      ref = ref;
      oid = b.oid;
      jcid = b.jcid;
      has_oid_references = b.has_oid_references;
      has_osid_references = b.has_osid_references;
      ref_count = ref_count;
    };
    md5_hash = md5_hash;
  })

pub record RevisionFields : Type 0 where
  pub oid : CompactId
  pub flags : ℕ
  pub ref_count : ℕ

unfoldable pub read_revision : FileNode → M RevisionFields
read_revision node = do
  oid ← CompactId.parse
  flags ← read_u8
  consumed node "ObjectRevisionWithRefCountFNDX parse did not consume full payload"
  pure (record { oid = oid; flags = flags; ref_count = low_bits (shr flags 2) 6 })

unfoldable pub read_revision2 : FileNode → M RevisionFields
read_revision2 node = do
  oid ← CompactId.parse
  flags ← read_u32
  ref_count ← read_u32
  consumed node "ObjectRevisionWithRefCount2FNDX parse did not consume full payload"
  pure (record { oid = oid; flags = flags; ref_count = ref_count })

unfoldable pub parse_object_revision_with_refcount_fndx :
    FileNode → M ObjectRevisionWithRefCountFndx
parse_object_revision_with_refcount_fndx node = do
  require_reference_type node "ObjectRevisionWithRefCountFNDX MUST have BaseType==1 or BaseType==2"
  ref ← the_reference node "ObjectRevisionWithRefCountFNDX MUST contain a FileNodeChunkReference"
  require_length node 5 "ObjectRevisionWithRefCountFNDX payload MUST be 5 bytes"
  x ← on_fnd node (read_revision node)
  pure (record {
    ref = ref;
    oid = x.oid;
    has_oid_references = flag 0 x.flags;
    has_osid_references = flag 1 x.flags;
    ref_count = x.ref_count;
  })

unfoldable pub parse_object_revision_with_refcount2_fndx :
    FileNode → M ObjectRevisionWithRefCount2Fndx
parse_object_revision_with_refcount2_fndx node = do
  require_reference_type node "ObjectRevisionWithRefCount2FNDX MUST have BaseType==1 or BaseType==2"
  ref ← the_reference node "ObjectRevisionWithRefCount2FNDX MUST contain a FileNodeChunkReference"
  require_length node 12 "ObjectRevisionWithRefCount2FNDX payload MUST be 12 bytes"
  x ← on_fnd node (read_revision2 node)
  violation_if (not (low_bits (shr x.flags 2) 30 == 0))
      "ObjectRevisionWithRefCount2FNDX.Reserved MUST be 0" (some node.header.offset)
  pure (record {
    ref = ref;
    oid = x.oid;
    has_oid_references = flag 0 x.flags;
    has_osid_references = flag 1 x.flags;
    ref_count = x.ref_count;
  })
