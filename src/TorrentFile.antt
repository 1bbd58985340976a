-- ===== src/TorrentFile.antt =====
-- core/torrent.go: the reader that builds a torrent from the parsed bencode.
-- An `int` is the 64-bit pattern of its two's complement. A missing text is empty, and a nil
-- container panics where it is used. SHA-1 is a parameter.
pub mod Spans
pub mod Placing
pub mod InfoHash
use dawn_torrent.Base.{
  ℕ, zero, suc, ◌+◌, ◌-◌, ◌%◌, ◌^◌, Bool, true, false, List, [], ◌∷◌, ◌++◌, Bytes, Option, none,
  some, length, get_elem?, equal_bytes, ltb, leb, ◌==◌, ◌&&◌, if◌then◌else◌, take, drop,
}
use dawn_torrent.Bencode.Parsing.{Parsed, returned, crashed, out_of_fuel, ◌>>=◌, or_crash}
use dawn_torrent.Bencode.{
  ContainerInformation, BMap, bmap, BList, blist, Maps, no_maps, map_entry, Lists, no_lists,
  list_entry, MapItems, no_map_items, nil_map, map_item, ListItems, no_list_items, nil_list,
  list_item, lookup, to_bencode,
}
use dawn_torrent.Bencode.Field.{parse_unsigned}
use dawn_torrent.Bencode.Parser.{key_info_of, unmarshall}

-- The value that `strconv.Atoi` gives beside its error, which the code drops: 0 for a syntax error,
-- the nearest bound for a number out of range.
abbrev in_range : Option ℕ → ℕ
in_range none = 0
in_range (some n) = if ltb n (2 ^ 63) then n else 2 ^ 63 - 1

abbrev negated : Option ℕ → ℕ
negated none = 0
negated (some n) = if n == 0 then 0 else if leb n (2 ^ 63) then 2 ^ 64 - n else 2 ^ 63

unfoldable pub int_of : Bytes → ℕ
int_of [] = 0
int_of (c ∷ cs) =
    if c == b'-'
    then negated (parse_unsigned cs)
    else if c == b'+'
    then in_range (parse_unsigned cs)
    else in_range (parse_unsigned (c ∷ cs))

-- `m.Strings[k]`, `m.BMaps[k]` and `m.BLists[k]`.
abbrev text_or_empty : Option Bytes → Bytes
text_or_empty none = []
text_or_empty (some s) = s

abbrev pub string_at : Bytes → BMap → Bytes
string_at k (bmap infos strings maps lists key_info) = text_or_empty (lookup k strings)

find_map : Bytes → Maps → Option BMap
find_map k no_maps = none
find_map k (map_entry j m rest) =
    let later = find_map k rest in if equal_bytes j k then some m else later

find_list : Bytes → Lists → Option BList
find_list k no_lists = none
find_list k (list_entry j l rest) =
    let later = find_list k rest in if equal_bytes j k then some l else later

unfoldable pub map_at : Bytes → BMap → Option BMap
unfolding find_map
map_at k (bmap infos strings maps lists key_info) = find_map k maps

unfoldable pub list_at : Bytes → BMap → Option BList
unfolding find_list
list_at k (bmap infos strings maps lists key_info) = find_list k lists

-- The keys that the reader looks for.
abbrev pub announce : Bytes
announce = b'a' ∷ b'n' ∷ b'n' ∷ b'o' ∷ b'u' ∷ b'n' ∷ b'c' ∷ b'e' ∷ []

abbrev pub announce_list : Bytes
announce_list = announce ++ (b'-' ∷ b'l' ∷ b'i' ∷ b's' ∷ b't' ∷ [])

abbrev pub creation_date : Bytes
creation_date =
    b'c' ∷ b'r' ∷ b'e' ∷ b'a' ∷ b't' ∷ b'i' ∷ b'o' ∷ b'n' ∷ b' ' ∷ b'd' ∷ b'a' ∷ b't' ∷ b'e' ∷ []

abbrev pub encoding : Bytes
encoding = b'e' ∷ b'n' ∷ b'c' ∷ b'o' ∷ b'd' ∷ b'i' ∷ b'n' ∷ b'g' ∷ []

abbrev pub info : Bytes
info = b'i' ∷ b'n' ∷ b'f' ∷ b'o' ∷ []

abbrev pub length_key : Bytes
length_key = b'l' ∷ b'e' ∷ b'n' ∷ b'g' ∷ b't' ∷ b'h' ∷ []

abbrev pub pieces : Bytes
pieces = b'p' ∷ b'i' ∷ b'e' ∷ b'c' ∷ b'e' ∷ b's' ∷ []

abbrev pub piece_length_key : Bytes
piece_length_key = b'p' ∷ b'i' ∷ b'e' ∷ b'c' ∷ b'e' ∷ b' ' ∷ length_key

abbrev pub name : Bytes
name = b'n' ∷ b'a' ∷ b'm' ∷ b'e' ∷ []

abbrev pub files : Bytes
files = b'f' ∷ b'i' ∷ b'l' ∷ b'e' ∷ b's' ∷ []

abbrev pub path : Bytes
path = b'p' ∷ b'a' ∷ b't' ∷ b'h' ∷ []

-- `fileMetadata`; its `FileIndex` is never set.
pub record FileMetadata : Type 0 where
  pub path : Bytes
  pub length : ℕ
  pub file_index : ℕ
  pub start_index : ℕ
  pub end_index : ℕ

pub data FileMode : Type 0 where
  single_file multiple_file : FileMode

-- The fields of `Torrent` that are set.
pub record Torrent : Type 0 where
  pub info_hash : Bytes
  pub announcer_url : Bytes
  pub announce_list : List Bytes
  pub creation_date : Bytes
  pub encoding : Bytes
  pub file_length : ℕ
  pub pieces_hash : Bytes
  pub piece_length : ℕ
  pub name : Bytes
  pub file_mode : FileMode
  pub files_metadata : List FileMetadata

abbrev with_start : Bytes → ℕ → ℕ → FileMetadata
with_start file_path file_length start = record {
  path = file_path;
  length = file_length;
  file_index = 0;
  start_index = start;
  end_index = (start + file_length) % 2 ^ 64;
}

unfoldable pub create_file_properties : List FileMetadata → Bytes → ℕ → ℕ → Parsed FileMetadata
create_file_properties properties file_path file_length zero =
    returned (with_start file_path file_length 0)
create_file_properties properties file_path file_length (suc i) =
    or_crash (get_elem? properties i) >>= λ before.
    returned (with_start file_path file_length before.end_index)

-- `l.Strings[0]` and `l.BMaps`, in order; nil pointers among the maps are `none`.
abbrev first_string : BList → Parsed Bytes
first_string (blist infos strings maps lists key_info) = or_crash (get_elem? strings 0)

abbrev items_of_maps : MapItems → List (Option BMap) → List (Option BMap)
items_of_maps no_map_items behind = behind
items_of_maps (nil_map rest) behind = items_of_maps rest (none ∷ behind)
items_of_maps (map_item m rest) behind = items_of_maps rest (some m ∷ behind)

abbrev maps_in : BList → List (Option BMap)
maps_in (blist infos strings maps lists key_info) = items_of_maps maps []

-- The path and the length of one file of the list.
unfoldable pub file_of : Option BMap → Parsed (Bytes × ℕ)
unfolding list_at int_of
file_of file = or_crash file >>= λ v. or_crash (list_at path v) >>= λ l.
    first_string l >>= λ file_path. returned (file_path, int_of (string_at length_key v))

-- The loop over the files, with the sum of their lengths.
unfoldable pub metadata_loop :
    List (Option BMap) → ℕ → List FileMetadata → ℕ → Parsed (List FileMetadata × ℕ)
unfolding file_of create_file_properties
metadata_loop [] index properties total = returned (properties, total)
metadata_loop (v ∷ vs) index properties total = file_of v >>= λ (file_path, file_length).
    create_file_properties properties file_path file_length index >>= λ new_file.
    metadata_loop vs (index + 1) (properties ++ (new_file ∷ [])) ((total + file_length) % 2 ^ 64)

-- `buildFileMetadata` on the info dictionary and the length that was read in front of it.
unfoldable pub build_file_metadata : BMap → ℕ → Parsed (FileMode × List FileMetadata × ℕ)
unfolding metadata_loop list_at
build_file_metadata m total = elim (list_at files m) [
  | some l ↦ metadata_loop (maps_in l) 0 [] total >>= λ (properties, sum).
      returned (multiple_file, properties, sum)
  | none ↦
      let file_length = int_of (string_at length_key m) in
      create_file_properties [] (string_at name m) file_length 0 >>= λ file.
      returned (single_file, file ∷ [], (total + file_length) % 2 ^ 64)
]

-- `file[start:end]`.
abbrev between : Bytes → ℕ → ℕ → Parsed Bytes
between file start end =
    if leb start end && leb end (length file)
    then returned (take (end - start) (drop start file))
    else crashed

-- `GetInfoHash` takes the bytes at the position of the info dictionary out of the printed document.
unfoldable pub get_info_hash : (Bytes → Bytes) → BMap → Parsed Bytes
unfolding map_at to_bencode
get_info_hash sha1 m = or_crash (map_at info m) >>= λ i. or_crash (key_info_of i) >>= λ position.
    to_bencode m >>= λ file.
    between file position.inner_starting_position position.ending_position >>= λ bytes.
    returned (sha1 bytes)

abbrev items_of_lists : ListItems → List (Option BList) → List (Option BList)
items_of_lists no_list_items behind = behind
items_of_lists (nil_list rest) behind = items_of_lists rest (none ∷ behind)
items_of_lists (list_item l rest) behind = items_of_lists rest (some l ∷ behind)

abbrev lists_in : BList → List (Option BList)
lists_in (blist infos strings maps lists key_info) = items_of_lists lists []

abbrev first_or_empty : BList → Bytes
first_or_empty (blist infos strings maps lists key_info) = text_or_empty (get_elem? strings 0)

-- The first URL of each tier; a nil pointer among the tiers crashes.
first_urls : List (Option BList) → Parsed (List Bytes)
first_urls [] = returned []
first_urls (l ∷ ls) =
    or_crash l >>= λ tier. first_urls ls >>= λ rest. returned (first_or_empty tier ∷ rest)

-- `CreateNewTorrent` behind the reading of the file.
unfoldable pub create_torrent : (Bytes → Bytes) → BMap → Parsed Torrent
unfolding get_info_hash build_file_metadata first_urls
create_torrent sha1 m = get_info_hash sha1 m >>= λ hash.
    or_crash (list_at announce_list m) >>= λ tiers. first_urls (lists_in tiers) >>= λ urls.
    or_crash (map_at info m) >>= λ i.
    build_file_metadata i (int_of (string_at length_key i)) >>= λ (mode, properties, total).
    returned (record {
      info_hash = hash;
      announcer_url = string_at announce m;
      announce_list = urls;
      creation_date = string_at creation_date m;
      encoding = string_at encoding m;
      file_length = total;
      pieces_hash = string_at pieces i;
      piece_length = int_of (string_at piece_length_key i);
      name = string_at name i;
      file_mode = mode;
      files_metadata = properties;
    })

-- `CreateNewTorrent` on what reading the file gives; nothing comes of a file that cannot be read.
unfoldable pub create_new_torrent : (Bytes → Bytes) → ℕ → Option Bytes → Parsed (Option Torrent)
unfolding create_torrent unmarshall
create_new_torrent sha1 fuel file = unmarshall fuel file >>= λ torrent_map. elim torrent_map [
  | none ↦ returned none
  | some m ↦ create_torrent sha1 m >>= λ t. returned (some t)
]
