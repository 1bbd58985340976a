-- ===== src/Bencode/Steps.antt =====
-- parser/bencode_parser.go: single rounds of the loops over a dictionary and over a list.
use dawn_torrent.Base.{
  ℕ, suc, ◌+◌, ◌≡◌, refl, true, false, ◌||◌, [], ◌∷◌, Bytes, some, length, drop, ◌==◌,
}
use dawn_torrent.Base.Decimal.{format_uint}
use dawn_torrent.Bencode.Parsing.{Parsed, returned}
use dawn_torrent.Bencode.{
  BMap, bmap, BList, string_type, list_type, dict_type, new_bmap, no_maps, no_lists, print_entries,
}
use dawn_torrent.Bencode.Field.{Fields, get_field}
use dawn_torrent.Bencode.Field.Elements.{char_at}
use dawn_torrent.Bencode.Parser.{
  Result, information, add_string, add_list, add_map, Gathered, empty_list, gathered_list,
  gather_string, gather_list, gather_map, add_element, gather_element, parse, dict_loop, list_loop,
}
use dawn_torrent.Bencode.Printing.{infos_of, entries_of}

-- `Parse` of a dictionary, into a map that was there, and of a list.
pub parse_dict :
    (fuel : ℕ) (m : BMap) (file : Bytes) (p : ℕ) (rest : Bytes)
    → drop p file ≡ b'd' ∷ rest
    → (m' : BMap) × ((d : BMap) (end : ℕ)
        → dict_loop fuel m' file (p + 1) ≡ returned (d, end)
        → parse (suc (suc fuel)) m file p
          ≡ returned (record {
            passed = d;
            dict = some d;
            d_list = some (gathered_list empty_list);
            position = end;
          }))
      × (infos_of m' ≡ [])
      × (entries_of m' ≡ returned [])
unfolding parse print_entries
parse_dict fuel (bmap infos strings maps lists key_info) file p rest h = (
  bmap [] [] no_maps no_lists key_info,
  (λ d end runs. rw (char_at file p b'd' rest h, runs) refl),
  refl,
  refl,
)

pub parse_list :
    (fuel : ℕ) (m : BMap) (file : Bytes) (p : ℕ) (rest : Bytes) (g : Gathered) (end : ℕ)
    → drop p file ≡ b'l' ∷ rest
    → list_loop fuel m empty_list file (p + 1) ≡ returned (m, g, end)
    → parse (suc (suc fuel)) m file p
      ≡ returned (record {
        passed = m;
        dict = some new_bmap;
        d_list = some (gathered_list g);
        position = end;
      })
unfolding parse
parse_list fuel (bmap infos strings maps lists key_info) file p rest g end h runs =
    rw (char_at file p b'l' rest h, runs) refl

module _ (fuel : ℕ) (m : BMap) (file : Bytes) (p : ℕ) (f : Fields) where
  module _ (m' : BMap) (end : ℕ) (field : get_field file p ≡ returned f)
      (adds : add_element p f m (parse fuel m file f.position) (parse fuel new_bmap file f.position)
        ≡ returned (m', end)) where
    pub dict_loop_last :
        (rest : Bytes)
        → drop end file ≡ b'e' ∷ rest
        → dict_loop (suc fuel) m file p ≡ returned (m', end)
    unfolding dict_loop
    dict_loop_last rest h = rw (field, adds, char_at file end b'e' rest h) refl

    pub dict_loop_more :
        (c : ℕ) (rest : Bytes)
        → (c == b'e') ≡ false
        → drop end file ≡ c ∷ rest
        → dict_loop (suc fuel) m file p ≡ dict_loop fuel m' file end
    unfolding dict_loop
    dict_loop_more c rest other h = rw (field, adds, char_at file end c rest h, other) refl

  module _ (g g' : Gathered) (m' : BMap) (end : ℕ) (field : get_field file p ≡ returned f)
      (gathers : gather_element p f m g
          (parse fuel m file f.position)
          (parse fuel new_bmap file f.position)
        ≡ returned (m', g', end)) where
    pub list_loop_last :
        (rest : Bytes)
        → drop end file ≡ b'e' ∷ rest
        → list_loop (suc fuel) m g file p ≡ returned (m', g', end)
    unfolding list_loop
    list_loop_last rest h = rw (field, gathers, char_at file end b'e' rest h) refl

    pub list_loop_more :
        (c : ℕ) (rest : Bytes)
        → (c == b'e') ≡ false
        → drop end file ≡ c ∷ rest
        → list_loop (suc fuel) m g file p ≡ list_loop fuel m' g' file end
    unfolding list_loop
    list_loop_more c rest other h = rw (field, gathers, char_at file end c rest h, other) refl

-- What an entry's body adds: a text or a number, a list, a dictionary.
pub add_element_text :
    (p q c : ℕ) (k v : Bytes) (m : BMap) (parsed_list parsed_dict : Parsed Result)
    → (c == 0 || c == b'e') ≡ true
    → add_element p (record { seq = k ∷ v ∷ []; position = q; field = c }) m parsed_list parsed_dict
      ≡ returned (add_string (information string_type k p q q 0) v m, q)
unfolding add_element
add_element_text p q c k v m parsed_list parsed_dict h = rw h refl

module _ (p q : ℕ) (k : Bytes) (m : BMap) (r : Result) (other : Parsed Result) where
  pub add_element_list :
      (l : BList)
      → r.d_list ≡ some l
      → r.passed ≡ m
      → add_element p (record { seq = k ∷ []; position = q; field = b'l' }) m (returned r) other
        ≡ returned (add_list (information list_type k p q (r.position + 1) 0) l m, r.position + 1)
  unfolding add_element
  add_element_list l h e = rw (h, e) refl

  pub add_element_dict :
      (d : BMap)
      → r.dict ≡ some d
      → add_element p (record { seq = k ∷ []; position = q; field = b'd' }) m other (returned r)
        ≡ returned (add_map (information dict_type k p q (r.position + 1) 0) d m, r.position + 1)
  unfolding add_element
  add_element_dict d h = rw h refl

-- What a list element's body adds.
pub gather_element_text :
    (p q : ℕ) (v : Bytes) (m : BMap) (g : Gathered) (parsed_list parsed_dict : Parsed Result)
    → gather_element p
        (record { seq = v ∷ []; position = q; field = b'e' })
        m
        g
        parsed_list
        parsed_dict
      ≡ returned (m, gather_string (information string_type [] p q q (length g.infos)) v g, q)
unfolding gather_element
gather_element_text p q v m g parsed_list parsed_dict = refl

module _ (p q : ℕ) (m : BMap) (g : Gathered) (r : Result) (other : Parsed Result) where
  pub gather_element_list :
      gather_element p (record { seq = []; position = q; field = b'l' }) m g (returned r) other
      ≡ returned (
        r.passed,
        gather_list
            (information list_type (format_uint g.n_lists) p q (r.position + 1) (length g.infos))
            r.d_list
            g,
        r.position + 1,
      )
  unfolding gather_element
  gather_element_list = refl

  pub gather_element_dict :
      gather_element p (record { seq = []; position = q; field = b'd' }) m g other (returned r)
      ≡ returned (
        m,
        gather_map
            (information dict_type (format_uint g.n_maps) p q (r.position + 1) (length g.infos))
            r.dict
            g,
        r.position + 1,
      )
  unfolding gather_element
  gather_element_dict = refl
