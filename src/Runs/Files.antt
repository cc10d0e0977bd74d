-- ===== src/Runs/Files.antt =====
-- The theorems on embedded files and on the items of tables at concrete inputs.
use aspose_note_foss_for_pyt.Prelude.{
  ℕ, ◌≡◌, refl, List, [], ◌∷◌, ◌++◌, take, drop, replicate, bytes_eq, arith,
}
use aspose_note_foss_for_pyt.Dict
use aspose_note_foss_for_pyt.Dict.{Dict}
use aspose_note_foss_for_pyt.Io.{little_endian}
use aspose_note_foss_for_pyt.Parser.{ok}
use aspose_note_foss_for_pyt.Read.{
  move, read_bytes, read_struct, read_u32, read_u64, remaining, require, tell,
}
use aspose_note_foss_for_pyt.FileData.{
  guid_header, guid_footer, FileDataStoreObject, read_object_header, read_padding,
  read_object_footer, read_padding_and_footer, read_file_data, parse_object,
}
use aspose_note_foss_for_pyt.FileData.Store.{IsObject, parse_object-IsObject}
use aspose_note_foss_for_pyt.ObjectSpace.Gids.{sorted_gid_table_items}
use aspose_note_foss_for_pyt.ObjectSpace.Tables.{IsGidTable}
use aspose_note_foss_for_pyt.ObjectSpace.Items.{IsAscending, sorted_gid_table_items_lem}
use aspose_note_foss_for_pyt.Runs.{file}

-- an embedded file of three bytes, with one byte of padding
abbrev object_bytes : List ℕ
object_bytes = guid_header ++ (3 ∷ replicate 19 0) ++ (10 ∷ 20 ∷ 30 ∷ 0 ∷ []) ++ guid_footer

abbrev object : FileDataStoreObject
object = record { cb_length = 3; file_data = 10 ∷ 20 ∷ 30 ∷ []; padding = 0 ∷ [] }

parsing : parse_object (file object_bytes) ≡ ok object (move 56 (file object_bytes))
unfolding parse_object read_object_header read_file_data read_padding_and_footer read_padding
    read_object_footer read_bytes read_u32 read_u64 read_struct remaining require tell take drop
    replicate bytes_eq little_endian
parsing = refl

parse_object-IsObject_example : IsObject (file object_bytes) object
parse_object-IsObject_example =
    parse_object-IsObject object (file object_bytes) (move 56 (file object_bytes)) refl parsing

abbrev items : Dict (List ℕ)
items = (9, 1 ∷ []) ∷ (4, 2 ∷ []) ∷ (5, 3 ∷ []) ∷ []

items-IsGidTable : IsGidTable items
unfolding IsGidTable
items-IsGidTable = ground arith

sorted_gid_table_items_example :
    IsAscending (sorted_gid_table_items items)
    × ((k : ℕ) → Dict.get (sorted_gid_table_items items) k ≡ Dict.get items k)
sorted_gid_table_items_example = sorted_gid_table_items_lem items items-IsGidTable
