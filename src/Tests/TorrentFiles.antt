-- ===== src/Tests/TorrentFiles.antt =====
-- The info dictionaries of a torrent of two files and of one file.
use dawn_torrent.Base.{◌≡◌, refl, [], ◌∷◌, Bytes, none, equal_bytes, arith}
use dawn_torrent.Bencode.Parsing.{returned}
use dawn_torrent.Bencode.{
  BMap, bmap, BList, blist, no_maps, no_lists, list_entry, no_map_items, map_item, no_list_items,
  lookup,
}
use dawn_torrent.Bencode.Field.{parse_uint}
use dawn_torrent.TorrentFile.{
  multiple_file, build_file_metadata, string_at, length_key, int_of, name, files, path, list_at,
  file_of,
}
use dawn_torrent.TorrentFile.Spans.{row, build_file_metadata_multiple}

-- A file's dictionary with a path of one part.
abbrev file_dict : Bytes → Bytes → BMap
file_dict file_path file_length =
    bmap [] ((length_key, file_length) ∷ []) no_maps
      (list_entry path (blist [] (file_path ∷ []) no_map_items no_list_items none) no_lists) none

abbrev two_files : BList
two_files =
    blist [] []
      (map_item (file_dict (b'b' ∷ []) (b'7' ∷ []))
        (map_item (file_dict (b'a' ∷ []) (b'5' ∷ [])) no_map_items))
      no_list_items none

build_file_metadata_multiple_example :
    build_file_metadata (bmap [] [] no_maps (list_entry files two_files no_lists) none) 0
    ≡ returned (multiple_file, row 0 ((b'a' ∷ [], 5) ∷ (b'b' ∷ [], 7) ∷ []), 12)
unfolding list_at file_of int_of lookup equal_bytes parse_uint
build_file_metadata_multiple_example =
    build_file_metadata_multiple (bmap [] [] no_maps (list_entry files two_files no_lists) none)
      two_files ((b'a' ∷ [], 5) ∷ (b'b' ∷ [], 7) ∷ []) 0 refl (refl, (refl, tt)) (omega arith)

abbrev one_file : BMap
one_file = bmap [] ((length_key, b'9' ∷ []) ∷ (name, b'n' ∷ []) ∷ []) no_maps no_lists none

nine : int_of (string_at length_key one_file) ≡ 9
unfolding int_of lookup equal_bytes parse_uint
nine = refl
