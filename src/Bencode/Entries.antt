-- ===== src/Bencode/Entries.antt =====
-- parser/bencode_parser.go: a round of the loop over a dictionary at the encoding of an entry.
use dawn_torrent.Base.{
  ℕ, ◌+◌, ◌^◌, ◌<◌, ◌≡◌, refl, inl, inr, ap, ◌∙◌, ◌⊎◌, [], ◌∷◌, ◌++◌, Bytes, none, some, length,
  length-append, drop, arith,
}
use mathlib.Core.List.{append_assoc}
use dawn_torrent.Base.Decimal.{format_uint, atoi, atoi-format_uint}
use dawn_torrent.Bencode.Parsing.{returned}
use dawn_torrent.Bencode.{
  ContainerInformation, BMap, bmap, Maps, map_entry, BList, string_type, list_type, dict_type,
  new_bmap, sized, text_or_number, to_bencode, list_to_bencode,
}
use dawn_torrent.Bencode.Field.{Fields, get_field}
use dawn_torrent.Bencode.Field.Pairs.{get_field_texts, get_field_number, get_field_end}
use dawn_torrent.Bencode.Parser.{
  information, key_info_of, set_key_info, add_string, add_list, add_map, Gathered, empty_list,
  gathered_list, add_element, parse,
}
use dawn_torrent.Bencode.Printing.{
  infos_of, entries_of, IsFresh, add_string-entries, add_list-entries, add_map-entries,
}
use dawn_torrent.Bencode.Steps.{add_element_text, add_element_list, add_element_dict}

abbrev pub maps_of : BMap → Maps
maps_of (bmap infos strings maps lists key_info) = maps

-- The nested dictionaries of a map, unless it has got one more under a key.
abbrev pub Extends : Bytes → BMap → BMap → Type 0
Extends k m m' = (maps_of m' ≡ maps_of m) ⊎ ((x : BMap) × (maps_of m' ≡ map_entry k x (maps_of m)))

-- `add_element` extends a map by an entry that is printed as the bytes.
abbrev pub Adds : ℕ → Bytes → ℕ → Bytes → BMap → Bytes → Bytes → Type 0
Adds fuel file p k m a bytes =
    (f : Fields) × (m' : BMap) × (info : ContainerInformation) × (end : ℕ) × (get_field file p
      ≡ returned f)
    × (add_element p f m (parse fuel m file f.position) (parse fuel new_bmap file f.position)
        ≡ returned (m', end))
    × (end ≡ p + length bytes)
    × (entries_of m' ≡ returned (a ++ bytes))
    × (infos_of m' ≡ infos_of m ++ (info ∷ []))
    × (info.key ≡ k)
    × Extends k m m'

-- `parse` makes a map that is printed as the bytes of a dictionary, which end in front of a position.
abbrev pub ParsesDict : ℕ → Bytes → ℕ → BMap → Bytes → Type 0
ParsesDict fuel file p m bytes =
    (d : BMap) × (parse fuel m file p
      ≡ returned (record {
        passed = d;
        dict = some d;
        d_list = some (gathered_list empty_list);
        position = p + 1 + length bytes;
      }))
    × (to_bencode d ≡ returned (b'd' ∷ (bytes ++ (b'e' ∷ []))))

abbrev pub ParsesList : ℕ → Bytes → ℕ → BMap → Bytes → Type 0
ParsesList fuel file p m bytes =
    (g : Gathered) × (parse fuel m file p
      ≡ returned (record {
        passed = m;
        dict = some new_bmap;
        d_list = some (gathered_list g);
        position = p + 1 + length bytes;
      }))
    × (list_to_bencode (gathered_list g) ≡ returned (b'l' ∷ (bytes ++ (b'e' ∷ []))))

infos_of-add_string :
    (info : ContainerInformation) (v : Bytes) (m : BMap)
    → infos_of (add_string info v m) ≡ infos_of m ++ (info ∷ [])
infos_of-add_string info v (bmap infos strings maps nested key_info) = refl

infos_of-add_list :
    (info : ContainerInformation) (l : BList) (m : BMap)
    → infos_of (add_list info l m) ≡ infos_of m ++ (info ∷ [])
infos_of-add_list info l (bmap infos strings maps nested key_info) = refl

infos_of-add_map :
    (info : ContainerInformation) (d m : BMap)
    → infos_of (add_map info d m) ≡ infos_of m ++ (info ∷ [])
infos_of-add_map info d (bmap infos strings maps nested key_info) = refl

maps_of-add_string :
    (info : ContainerInformation) (v : Bytes) (m : BMap) → maps_of (add_string info v m) ≡ maps_of m
maps_of-add_string info v (bmap infos strings maps nested key_info) = refl

maps_of-add_list :
    (info : ContainerInformation) (l : BList) (m : BMap) → maps_of (add_list info l m) ≡ maps_of m
maps_of-add_list info l (bmap infos strings maps nested key_info) = refl

maps_of-add_map :
    (info : ContainerInformation) (d m : BMap)
    → maps_of (add_map info d m) ≡ map_entry info.key (set_key_info info d) (maps_of m)
maps_of-add_map info d (bmap infos strings maps nested key_info) = refl

key_info_of-set_key_info :
    (info : ContainerInformation) (d : BMap) → key_info_of (set_key_info info d) ≡ some info
key_info_of-set_key_info info (bmap infos strings maps nested key_info) = refl

text_or_number-text : (s : Bytes) → atoi s ≡ none → text_or_number s ≡ sized s
unfolding text_or_number
text_or_number-text s h = rw (text_or_number, h) refl

text_or_number-format_uint :
    (n : ℕ) → n < 2 ^ 63 → text_or_number (format_uint n) ≡ b'i' ∷ (format_uint n ++ (b'e' ∷ []))
unfolding text_or_number
text_or_number-format_uint n h = rw (text_or_number, atoi-format_uint n h) refl

module _ (file : Bytes) (bound : length file < 2 ^ 63) (fuel p : ℕ) (k : Bytes) (m : BMap)
    (a : Bytes) (fresh : IsFresh k m) (printed : entries_of m ≡ returned a) (rest : Bytes) where
  pub text-Adds :
      (s : Bytes)
      → atoi s ≡ none
      → drop p file ≡ (sized k ++ sized s) ++ rest
      → Adds fuel file p k m a (sized k ++ sized s)
  text-Adds s plain h =
      let q = p + length (sized k) + length (sized s) in
      let info = information string_type k p q q 0 in
      (
        record { seq = k ∷ s ∷ []; position = q; field = 0 },
        add_string info s m,
        info,
        q,
        get_field_texts file bound p k s rest (h ∙ append_assoc (sized k) (sized s) rest),
        add_element_text p q 0 k s m _ _ refl,
        omega (arith, length-append (sized k) (sized s)),
        add_string-entries k p q q 0 s m a fresh printed
            ∙ ap (λ t. returned (a ++ (sized k ++ t))) (text_or_number-text s plain),
        infos_of-add_string info s m,
        refl,
        inl (maps_of-add_string info s m),
      )

  pub number-Adds :
      (n : ℕ)
      → n < 2 ^ 63
      → drop p file ≡ (sized k ++ (b'i' ∷ (format_uint n ++ (b'e' ∷ [])))) ++ rest
      → Adds fuel file p k m a (sized k ++ (b'i' ∷ (format_uint n ++ (b'e' ∷ []))))
  number-Adds n small h =
      let q = p + length (sized k) + 2 + length (format_uint n) in
      let info = information string_type k p q q 0 in
      let s = format_uint n in
      (
        record { seq = k ∷ s ∷ []; position = q; field = b'e' },
        add_string info s m,
        info,
        q,
        get_field_number file bound p k n rest small (
            h
            ∙ append_assoc (sized k) (b'i' ∷ (s ++ (b'e' ∷ []))) rest
            ∙ ap (λ t. sized k ++ (b'i' ∷ t)) (append_assoc s (b'e' ∷ []) rest)),
        add_element_text p q b'e' k s m _ _ refl,
        omega (
          arith,
          length-append (sized k) (b'i' ∷ (s ++ (b'e' ∷ []))),
          length-append s (b'e' ∷ []),
        ),
        add_string-entries k p q q 0 s m a fresh printed
            ∙ ap (λ t. returned (a ++ (sized k ++ t))) (text_or_number-format_uint n small),
        infos_of-add_string info s m,
        refl,
        inl (maps_of-add_string info s m),
      )

  -- The nested dictionary stands under its key, with the place of its bytes.
  pub dict-AddsAt :
      (bytes : Bytes)
      → drop p file ≡ (sized k ++ (b'd' ∷ (bytes ++ (b'e' ∷ [])))) ++ rest
      → ParsesDict fuel file (p + length (sized k)) new_bmap bytes
      → (added : Adds fuel file p k m a (sized k ++ (b'd' ∷ (bytes ++ (b'e' ∷ []))))) × (x : BMap)
        × (maps_of added.1 ≡ map_entry k x (maps_of m))
        × (key_info_of x
            ≡ some (
                information dict_type k p
                  (p + length (sized k))
                  (p + length (sized k) + 1 + length bytes + 1)
                  0))
  dict-AddsAt bytes h (d, runs, shows) =
      let q = p + length (sized k) in
      let end = q + 1 + length bytes + 1 in
      let info = information dict_type k p q end 0 in
      (
        (
          record { seq = k ∷ []; position = q; field = b'd' },
          add_map info d m,
          info,
          end,
          get_field_end file bound p k b'd' _ (inl refl)
              (h ∙ append_assoc (sized k) (b'd' ∷ (bytes ++ (b'e' ∷ []))) rest),
          rw runs (add_element_dict p q k m _ _ d refl),
          omega (
            arith,
            length-append (sized k) (b'd' ∷ (bytes ++ (b'e' ∷ []))),
            length-append bytes (b'e' ∷ []),
          ),
          add_map-entries k p q end 0 d _ m a shows fresh printed,
          infos_of-add_map info d m,
          refl,
          inr (set_key_info info d, maps_of-add_map info d m),
        ),
        set_key_info info d,
        maps_of-add_map info d m,
        key_info_of-set_key_info info d,
      )

  pub dict-Adds :
      (bytes : Bytes)
      → drop p file ≡ (sized k ++ (b'd' ∷ (bytes ++ (b'e' ∷ [])))) ++ rest
      → ParsesDict fuel file (p + length (sized k)) new_bmap bytes
      → Adds fuel file p k m a (sized k ++ (b'd' ∷ (bytes ++ (b'e' ∷ []))))
  dict-Adds bytes h parsed = (dict-AddsAt bytes h parsed).0

  pub list-Adds :
      (bytes : Bytes)
      → drop p file ≡ (sized k ++ (b'l' ∷ (bytes ++ (b'e' ∷ [])))) ++ rest
      → ParsesList fuel file (p + length (sized k)) m bytes
      → Adds fuel file p k m a (sized k ++ (b'l' ∷ (bytes ++ (b'e' ∷ []))))
  list-Adds bytes h (g, runs, shows) =
      let q = p + length (sized k) in
      let end = q + 1 + length bytes + 1 in
      let info = information list_type k p q end 0 in
      (
        record { seq = k ∷ []; position = q; field = b'l' },
        add_list info (gathered_list g) m,
        info,
        end,
        get_field_end file bound p k b'l' _ (inr (inl refl))
            (h ∙ append_assoc (sized k) (b'l' ∷ (bytes ++ (b'e' ∷ []))) rest),
        rw runs (add_element_list p q k m _ _ (gathered_list g) refl refl),
        omega (
          arith,
          length-append (sized k) (b'l' ∷ (bytes ++ (b'e' ∷ []))),
          length-append bytes (b'e' ∷ []),
        ),
        add_list-entries k p q end 0 (gathered_list g) _ m a shows fresh printed,
        infos_of-add_list info (gathered_list g) m,
        refl,
        inl (maps_of-add_list info (gathered_list g) m),
      )
