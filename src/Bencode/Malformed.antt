-- ===== src/Bencode/Malformed.antt =====
-- parser/bencode_parser.go: files and documents that the parser does not read as they are meant.
use dawn_torrent.Base.{
  ℕ, zero, suc, ◌+◌, ◌^◌, ◌<◌, ◌≡◌, ◌⊎◌, refl, inl, inr, [], ◌∷◌, ◌++◌, Bytes, some, length, drop,
  leb, true, arith,
}
use dawn_torrent.Bencode.Parsing.{returned, crashed, out_of_fuel}
use dawn_torrent.Bencode.{BMap, bmap, new_bmap, sized, list_to_bencode}
use dawn_torrent.Bencode.Field.{get_field}
use dawn_torrent.Bencode.Field.Elements.{behind, char_at}
use dawn_torrent.Bencode.Field.Pairs.{get_field_container, get_field_texts}
use dawn_torrent.Bencode.Parser.{
  Result, Gathered, empty_list, gathered_list, parse, list_loop, add_element, gather_element,
  unmarshall_from_array,
}

-- An empty dictionary and an empty list, anywhere in a file, crash the parser.
pub parse_empty_container :
    (file : Bytes) (p c fuel : ℕ) (m : BMap) (rest : Bytes)
    → length file < 2 ^ 63
    → (c ≡ b'd') ⊎ (c ≡ b'l')
    → drop p file ≡ c ∷ b'e' ∷ rest
    → parse (suc (suc (suc fuel))) m file p ≡ crashed
unfolding parse add_element gather_element
parse_empty_container file p c fuel (bmap infos strings maps lists key_info) rest bound is h =
    let field =
      get_field_container file bound (p + 1) b'e' rest (inr (inr refl))
        (behind file p (p + 1) (c ∷ []) (b'e' ∷ rest) h refl) in
    elim is [
      | inl e ↦ rw (char_at file p c (b'e' ∷ rest) h, e, field) refl
      | inr e ↦ rw (char_at file p c (b'e' ∷ rest) h, e, field) refl
    ]

abbrev hanging_file : Bytes → Bytes
hanging_file rest = b'l' ∷ b'i' ∷ b'5' ∷ b'l' ∷ b'0' ∷ b':' ∷ b'e' ∷ rest

hanging_field :
    (rest : Bytes)
    → get_field (hanging_file rest) 1
      ≡ returned (record { seq = (b'5' ∷ []) ∷ [] ∷ []; position = 6; field = b'l' })
unfolding get_field
hanging_field rest = rw (short rest) refl
  where
    short : (rest : Bytes) → leb 6 (length (hanging_file rest)) ≡ true
    short rest = ground arith

-- The loop over this list goes back to its first element for ever.
list_loop_hangs :
    (fuel : ℕ) (m : BMap) (g : Gathered) (rest : Bytes)
    → list_loop fuel m g (hanging_file rest) 1 ≡ out_of_fuel
unfolding list_loop gather_element
list_loop_hangs zero m g rest = refl
list_loop_hangs (suc zero) m g rest = rw (hanging_field rest) refl
list_loop_hangs (suc (suc zero)) m g rest = rw (hanging_field rest) refl
list_loop_hangs (suc (suc (suc fuel))) (bmap infos strings maps lists key_info) g rest =
    rw (hanging_field rest)
      (list_loop_hangs (suc (suc fuel)) (bmap infos strings maps lists key_info) _ rest)

-- Whatever stands behind them, the bytes "li5l0:e" keep the parser running for ever: no fuel is
-- enough.
pub unmarshall_from_array_hangs :
    (fuel : ℕ) (rest : Bytes)
    → unmarshall_from_array fuel (b'l' ∷ b'i' ∷ b'5' ∷ b'l' ∷ b'0' ∷ b':' ∷ b'e' ∷ rest)
      ≡ out_of_fuel
unfolding unmarshall_from_array
unmarshall_from_array_hangs zero rest = refl
unmarshall_from_array_hangs (suc zero) rest = refl
unmarshall_from_array_hangs (suc (suc fuel)) rest =
    rw (list_loop_hangs fuel new_bmap empty_list rest) refl

-- A list of two texts is parsed as a list without elements, which prints as the empty list.
pub parse_two_texts :
    (file : Bytes) (p fuel : ℕ) (m : BMap) (s t rest : Bytes)
    → length file < 2 ^ 63
    → drop p file ≡ b'l' ∷ (sized s ++ (sized t ++ (b'e' ∷ rest)))
    → (r : Result) × (parse (suc (suc (suc fuel))) m file p ≡ returned r)
      × (r.d_list ≡ some (gathered_list empty_list))
      × (list_to_bencode (gathered_list empty_list) ≡ returned (b'l' ∷ b'e' ∷ []))
unfolding parse gather_element list_to_bencode
parse_two_texts file p fuel (bmap infos strings maps lists key_info) s t rest bound h =
    let q = p + 1 + length (sized s) + length (sized t) in
    let there = behind file p (p + 1) (b'l' ∷ []) _ h refl in
    let field = get_field_texts file bound (p + 1) s t (b'e' ∷ rest) there in
    let after = char_at file q b'e' rest (
      behind file (p + 1 + length (sized s)) q (sized t) (b'e' ∷ rest)
        (behind file (p + 1) (p + 1 + length (sized s)) (sized s) _ there refl) refl) in
    (
      record {
        passed = bmap infos strings maps lists key_info;
        dict = some new_bmap;
        d_list = some (gathered_list empty_list);
        position = q;
      },
      rw (char_at file p b'l' _ h, field, after) refl,
      refl,
      refl,
    )
