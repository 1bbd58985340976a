-- ===== src/Bencode/Parser.antt =====
-- parser/bencode_parser.go: `Parse` and `UnmarshallFromArray`.
-- Each call and each round of a loop takes one unit of fuel. A `*containerInformation` that several
-- places share is stored where its fields have their final values.
use dawn_torrent.Base.{
  ℕ, zero, suc, ◌+◌, ◌-◌, ◌||◌, List, [], ◌∷◌, ◌++◌, Bytes, Option, none, some, length, get_elem?,
  ◌==◌, if◌then◌else◌,
}
use dawn_torrent.Base.Decimal.{format_uint}
use dawn_torrent.Bencode.Parsing.{Parsed, returned, out_of_fuel, ◌>>=◌, or_crash}
use dawn_torrent.Bencode.{
  DataType, string_type, list_type, dict_type, ContainerInformation, BMap, bmap, BList, blist,
  no_maps, map_entry, no_lists, list_entry, MapItems, no_map_items, nil_map, map_item, ListItems,
  no_list_items, nil_list, list_item, new_bmap,
}
use dawn_torrent.Bencode.Field.{Fields, get_field}

-- The fields of `Result`, with nil pointers, and the dictionary that was passed in as it is after
-- the call.
pub record Result : Type 0 where
  pub passed : BMap
  pub dict : Option BMap
  pub d_list : Option BList
  pub position : ℕ

-- The information of an element that starts at a position, whose content starts at another, and
-- behind which the parser stands.
abbrev pub information : DataType → Bytes → ℕ → ℕ → ℕ → ℕ → ContainerInformation
information d_type key start inner end index = record {
  key = key;
  d_type = d_type;
  starting_position = start;
  ending_position = end;
  inner_starting_position = inner;
  inner_ending_position = end - 1;
  index = index;
}

abbrev pub key_info_of : BMap → Option ContainerInformation
key_info_of (bmap infos strings maps lists key_info) = key_info

abbrev pub set_key_info : ContainerInformation → BMap → BMap
set_key_info info (bmap infos strings maps lists key_info) =
    bmap infos strings maps lists (some info)

abbrev pub set_list_key_info : ContainerInformation → BList → BList
set_list_key_info info (blist infos strings maps lists key_info) =
    blist infos strings maps lists (some info)

abbrev pub add_string : ContainerInformation → Bytes → BMap → BMap
add_string info value (bmap infos strings maps lists key_info) =
    bmap (infos ++ (info ∷ [])) ((info.key, value) ∷ strings) maps lists key_info

abbrev pub add_list : ContainerInformation → BList → BMap → BMap
add_list info l (bmap infos strings maps lists key_info) =
    bmap (infos ++ (info ∷ [])) strings maps (list_entry info.key (set_list_key_info info l) lists)
      key_info

-- The outer dictionary's own information is overwritten too.
abbrev pub add_map : ContainerInformation → BMap → BMap → BMap
add_map info m (bmap infos strings maps lists key_info) =
    bmap (infos ++ (info ∷ [])) strings (map_entry info.key (set_key_info info m) maps) lists
      (some info)

-- The state of the loop over a list: its fields and the number of its dictionaries and lists.
pub record Gathered : Type 0 where
  pub infos : List ContainerInformation
  pub strings : List Bytes
  pub maps : MapItems
  pub lists : ListItems
  pub n_maps : ℕ
  pub n_lists : ℕ
  pub key_info : Option ContainerInformation

abbrev pub empty_list : Gathered
empty_list = record {
  infos = [];
  strings = [];
  maps = no_map_items;
  lists = no_list_items;
  n_maps = 0;
  n_lists = 0;
  key_info = none;
}

abbrev pub gathered_list : Gathered → BList
gathered_list g = blist g.infos g.strings g.maps g.lists g.key_info

abbrev pub push_list : Option BList → ListItems → ListItems
push_list none lists = nil_list lists
push_list (some l) lists = list_item l lists

abbrev pub push_map : Option BMap → MapItems → MapItems
push_map none maps = nil_map maps
push_map (some m) maps = map_item m maps

abbrev pub gather_string : ContainerInformation → Bytes → Gathered → Gathered
gather_string info s g = record g {
  infos = g.infos ++ (info ∷ []);
  strings = g.strings ++ (s ∷ []);
}

abbrev pub gather_list : ContainerInformation → Option BList → Gathered → Gathered
gather_list info l g = record g {
  infos = g.infos ++ (info ∷ []);
  lists = push_list l g.lists;
  n_lists = g.n_lists + 1;
  key_info = some info;
}

abbrev pub gather_map : ContainerInformation → Option BMap → Gathered → Gathered
gather_map info m g = record g {
  infos = g.infos ++ (info ∷ []);
  maps = push_map m g.maps;
  n_maps = g.n_maps + 1;
  key_info = some info;
}

-- The body of the loop over a dictionary's elements behind `getField`: a text, or what `Parse` makes
-- of a list or a dictionary there.
unfoldable pub add_element : ℕ → Fields → BMap → Parsed Result → Parsed Result → Parsed (BMap × ℕ)
add_element start f m parsed_list parsed_dict = or_crash (get_elem? f.seq 0) >>= λ key.
    let text : Parsed (BMap × ℕ) = or_crash (get_elem? f.seq 1) >>= λ value.
    returned (
      add_string (information string_type key start f.position f.position 0) value m,
      f.position,
    ) in
    let list : Parsed (BMap × ℕ) = parsed_list >>= λ r. or_crash r.d_list >>= λ l. returned (
      add_list (information list_type key start f.position (r.position + 1) 0) l r.passed,
      r.position + 1,
    ) in
    let dict : Parsed (BMap × ℕ) = parsed_dict >>= λ r. or_crash r.dict >>= λ d.
    returned (
      add_map (information dict_type key start f.position (r.position + 1) 0) d m,
      r.position + 1,
    ) in
    if f.field == 0 || f.field == b'e'
    then text
    else if f.field == b'l'
    then list
    else if f.field == b'd'
    then dict
    else returned (m, f.position)

-- The body of the loop over a list's elements, in the same way.
unfoldable pub gather_element :
    ℕ → Fields → BMap → Gathered → Parsed Result → Parsed Result → Parsed (BMap × Gathered × ℕ)
gather_element start f m g parsed_list parsed_dict =
    let index = length g.infos in
    let text : Parsed (BMap × Gathered × ℕ) = or_crash (get_elem? f.seq 0) >>= λ s. returned (
      m,
      gather_string (information string_type [] start f.position f.position index) s g,
      f.position,
    ) in
    let list : Parsed (BMap × Gathered × ℕ) = parsed_list >>= λ r. returned (
      r.passed,
      gather_list
          (information list_type (format_uint g.n_lists) start f.position (r.position + 1) index)
          r.d_list g,
      r.position + 1,
    ) in
    let dict : Parsed (BMap × Gathered × ℕ) = parsed_dict >>= λ r. returned (
      m,
      gather_map
          (information dict_type (format_uint g.n_maps) start f.position (r.position + 1) index)
          r.dict g,
      r.position + 1,
    ) in
    if f.field == b'e'
    then text
    else if f.field == b'l'
    then list
    else if f.field == b'd'
    then dict
    else returned (m, g, f.position)

unfoldable mutual
  unfolding get_field add_element gather_element

  -- `Parse` into a dictionary that exists already.
  pub parse : ℕ → BMap → Bytes → ℕ → Parsed Result
  parse zero m file position = out_of_fuel
  parse (suc fuel) m file position =
      or_crash (get_elem? file position) >>= λ field. parse_as fuel field m file (position + 1)

  pub parse_as : ℕ → ℕ → BMap → Bytes → ℕ → Parsed Result
  parse_as zero field m file position = out_of_fuel
  parse_as (suc fuel) field (bmap infos strings maps lists key_info) file position =
      let as_dict : Parsed Result =
        dict_loop fuel (bmap [] [] no_maps no_lists key_info) file position >>= λ (d, end).
        returned (record {
          passed = d;
          dict = some d;
          d_list = some (gathered_list empty_list);
          position = end;
        }) in
      let as_list : Parsed Result =
        list_loop fuel (bmap infos strings maps lists key_info) empty_list file position
        >>= λ (d, g, end). returned (record {
          passed = d;
          dict = some new_bmap;
          d_list = some (gathered_list g);
          position = end;
        }) in
      if field == b'd'
      then as_dict
      else if field == b'l'
      then as_list
      else returned (record {
        passed = bmap infos strings maps lists key_info;
        dict = none;
        d_list = none;
        position = 0;
      })

  -- The loop over a dictionary's elements, up to its end.
  pub dict_loop : ℕ → BMap → Bytes → ℕ → Parsed (BMap × ℕ)
  dict_loop zero m file start = out_of_fuel
  dict_loop (suc fuel) m file start = get_field file start >>= λ f.
      add_element start f m (parse fuel m file f.position) (parse fuel new_bmap file f.position)
      >>= λ (m', end). or_crash (get_elem? file end) >>= λ c.
          let more = dict_loop fuel m' file end in if c == b'e' then returned (m', end) else more

  -- The loop over a list's elements, with the dictionary that was passed in.
  pub list_loop : ℕ → BMap → Gathered → Bytes → ℕ → Parsed (BMap × Gathered × ℕ)
  list_loop zero m g file start = out_of_fuel
  list_loop (suc fuel) m g file start = get_field file start >>= λ f.
      gather_element start f m g (parse fuel m file f.position)
        (parse fuel new_bmap file f.position)
      >>= λ (m', g', end). or_crash (get_elem? file end) >>= λ c.
          let more = list_loop fuel m' g' file end in
          if c == b'e' then returned (m', g', end) else more

abbrev pub origin : ℕ → ContainerInformation
origin end = record {
  key = b'o' ∷ b'r' ∷ b'i' ∷ b'g' ∷ b'i' ∷ b'n' ∷ [];
  d_type = dict_type;
  starting_position = 0;
  ending_position = 0;
  inner_starting_position = 0;
  inner_ending_position = end;
  index = 0;
}

unfoldable pub unmarshall_from_array : ℕ → Bytes → Parsed BMap
unfolding parse
unmarshall_from_array fuel file =
    parse fuel new_bmap file 0 >>= λ r. returned (set_key_info (origin r.position) r.passed)

-- `Unmarshall` on what reading the file gives; without it there is an error and no map.
unfoldable pub unmarshall : ℕ → Option Bytes → Parsed (Option BMap)
unfolding unmarshall_from_array
unmarshall fuel none = returned none
unmarshall fuel (some file) = unmarshall_from_array fuel file >>= λ m. returned (some m)
