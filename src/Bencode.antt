-- ===== src/Bencode.antt =====
-- parser/bencode_parser.go: the trees that the parser builds, and `ToBencode`.
-- Maps are association lists whose newest entry stands first; a nil pointer in a list is an item of
-- its own.
pub mod Parsing
pub mod Field
pub mod Parser
pub mod Documents
pub mod Printing
pub mod Gathering
pub mod Steps
pub mod Entries
pub mod Items
pub mod Loops
pub mod Reading
pub mod RoundTrip
pub mod Malformed
use dawn_torrent.Base.{
  ℕ, Bool, true, false, List, [], ◌∷◌, ◌++◌, Bytes, Option, none, some, length, get_elem?,
  if◌then◌else◌, equal_bytes,
}
use dawn_torrent.Base.Decimal.{format_uint, atoi}
use dawn_torrent.Bencode.Parsing.{Parsed, returned, crashed, out_of_fuel, ◌>>=◌, or_crash}

-- `dType`: "s", "l" and "d", or the empty text.
pub data DataType : Type 0 where
  untyped string_type list_type dict_type : DataType

pub record ContainerInformation : Type 0 where
  pub key : Bytes
  pub d_type : DataType
  pub starting_position : ℕ
  pub ending_position : ℕ
  pub inner_starting_position : ℕ
  pub inner_ending_position : ℕ
  pub index : ℕ

mutual
  -- `DataList`, `Strings`, `BMaps`, `BLists` and `KeyInfo`.
  pub data BMap : Type 0 where
    bmap :
        List ContainerInformation
        → List (Bytes × Bytes)
        → Maps
        → Lists
        → Option ContainerInformation
        → BMap

  pub data BList : Type 0 where
    blist :
        List ContainerInformation
        → List Bytes
        → MapItems
        → ListItems
        → Option ContainerInformation
        → BList

  pub data Maps : Type 0 where
    no_maps : Maps
    map_entry : Bytes → BMap → Maps → Maps

  pub data Lists : Type 0 where
    no_lists : Lists
    list_entry : Bytes → BList → Lists → Lists

  -- The items that were appended last stand first.
  pub data MapItems : Type 0 where
    no_map_items : MapItems
    nil_map : MapItems → MapItems
    map_item : BMap → MapItems → MapItems

  pub data ListItems : Type 0 where
    no_list_items : ListItems
    nil_list : ListItems → ListItems
    list_item : BList → ListItems → ListItems

-- The value of a key in a map.
unfoldable pub lookup {ℓ} : {A : Type ℓ} → Bytes → List (Bytes × A) → Option A
lookup k [] = none
lookup k ((j, v) ∷ rest) = if equal_bytes j k then some v else lookup k rest

-- `new(BMap)`.
abbrev pub new_bmap : BMap
new_bmap = bmap [] [] no_maps no_lists none

-- A text with its length in front.
abbrev pub sized : Bytes → Bytes
sized s = format_uint (length s) ++ (b':' ∷ s)

-- A text of a dictionary: what reads as a number is printed as one.
unfoldable pub text_or_number : Bytes → Bytes
text_or_number s = elim (atoi s) [ some n ↦ b'i' ∷ (s ++ (b'e' ∷ [])) | none ↦ sized s ]

-- The printed elements of one container by kind, an absent one being a nil pointer.
pub record Printed : Type 0 where
  pub strings : List (Bytes × Bytes)
  pub maps : List (Bytes × Parsed Bytes)
  pub lists : List (Bytes × Parsed Bytes)

-- A missing text prints as the empty one, a nil container crashes.
unfoldable pub print_entry : Printed → ContainerInformation → Parsed Bytes
unfolding lookup text_or_number
print_entry p info = elim info.d_type [
  | string_type ↦ elim (lookup info.key p.strings) [
    | some s ↦ returned (sized info.key ++ text_or_number s)
    | none ↦ returned (sized info.key ++ text_or_number [])
  ]
  | list_type ↦
      or_crash (lookup info.key p.lists) >>= λ r. r >>= λ bytes. returned (sized info.key ++ bytes)
  | dict_type ↦
      or_crash (lookup info.key p.maps) >>= λ r. r >>= λ bytes. returned (sized info.key ++ bytes)
  | untyped ↦ returned (sized info.key)
]

unfoldable pub print_entries : Printed → List ContainerInformation → Parsed Bytes
unfolding print_entry
print_entries p [] = returned []
print_entries p (info ∷ infos) =
    print_entry p info >>= λ first. print_entries p infos >>= λ rest. returned (first ++ rest)

-- An element of a list is taken at its index among all elements, out of range it crashes.
unfoldable pub print_item :
    List Bytes → List (Parsed Bytes) → List (Parsed Bytes) → ContainerInformation → Parsed Bytes
print_item strings maps lists info = elim info.d_type [
  | string_type ↦ or_crash (get_elem? strings info.index) >>= λ s. returned (sized s)
  | dict_type ↦ or_crash (get_elem? maps info.index) >>= λ r. r
  | list_type ↦ or_crash (get_elem? lists info.index) >>= λ r. r
  | untyped ↦ returned []
]

unfoldable pub print_items :
    List Bytes
    → List (Parsed Bytes)
    → List (Parsed Bytes)
    → List ContainerInformation
    → Parsed Bytes
unfolding print_item
print_items strings maps lists [] = returned []
print_items strings maps lists (info ∷ infos) = print_item strings maps lists info >>= λ first.
    print_items strings maps lists infos >>= λ rest. returned (first ++ rest)

-- `ToBencode`. The children are printed first, and a child that crashes does so where it is used.
unfoldable mutual
  unfolding print_entries print_items

  pub to_bencode : BMap → Parsed Bytes
  to_bencode (bmap infos strings maps lists key_info) =
      print_entries
        (record { strings = strings; maps = print_maps maps; lists = print_lists lists }) infos
      >>= λ inner. returned (b'd' ∷ (inner ++ (b'e' ∷ [])))

  pub list_to_bencode : BList → Parsed Bytes
  list_to_bencode (blist infos strings maps lists key_info) =
      print_items strings (print_map_items maps []) (print_list_items lists []) infos >>= λ inner.
      returned (b'l' ∷ (inner ++ (b'e' ∷ [])))

  pub print_maps : Maps → List (Bytes × Parsed Bytes)
  print_maps no_maps = []
  print_maps (map_entry k m rest) = (k, to_bencode m) ∷ print_maps rest

  pub print_lists : Lists → List (Bytes × Parsed Bytes)
  print_lists no_lists = []
  print_lists (list_entry k l rest) = (k, list_to_bencode l) ∷ print_lists rest

  pub print_map_items : MapItems → List (Parsed Bytes) → List (Parsed Bytes)
  print_map_items no_map_items acc = acc
  print_map_items (nil_map rest) acc = print_map_items rest (crashed ∷ acc)
  print_map_items (map_item m rest) acc = print_map_items rest (to_bencode m ∷ acc)

  pub print_list_items : ListItems → List (Parsed Bytes) → List (Parsed Bytes)
  print_list_items no_list_items acc = acc
  print_list_items (nil_list rest) acc = print_list_items rest (crashed ∷ acc)
  print_list_items (list_item l rest) acc = print_list_items rest (list_to_bencode l ∷ acc)
