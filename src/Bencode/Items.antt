-- ===== src/Bencode/Items.antt =====
-- parser/bencode_parser.go: a round of the loop over a list at the encoding of an element.
use dawn_torrent.Base.{
  ℕ, suc, ◌+◌, ◌^◌, ◌<◌, ◌≡◌, refl, inl, inr, ap, ◌∙◌, false, [], ◌∷◌, ◌++◌, Bytes, some, length,
  length-append, drop, ◌==◌, arith,
}
use mathlib.Core.List.{append_assoc}
use dawn_torrent.Base.Decimal.{format_uint}
use dawn_torrent.Bencode.Parsing.{returned}
use dawn_torrent.Bencode.{BMap, dict_type, list_type, string_type, new_bmap, sized}
use dawn_torrent.Bencode.Field.{Fields, get_field}
use dawn_torrent.Bencode.Field.Elements.{behind}
use dawn_torrent.Bencode.Field.Pairs.{get_field_end, get_field_container}
use dawn_torrent.Bencode.Parser.{
  Gathered, empty_list, gathered_list, gather_element, gather_string, gather_map, gather_list,
  information, parse, list_loop,
}
use dawn_torrent.Bencode.Gathering.{
  items_of, printed_maps, printed_lists, gather_string-items, gather_map-items, gather_list-items,
  gather_map-length, gather_list-length,
}
use dawn_torrent.Bencode.Steps.{
  list_loop_last, list_loop_more, gather_element_text, gather_element_list, gather_element_dict,
}
use dawn_torrent.Bencode.Entries.{ParsesDict, ParsesList}

-- `gather_element` extends a list by an element that is printed as the bytes.
abbrev pub Gathers : ℕ → Bytes → ℕ → BMap → Gathered → Bytes → Bytes → Type 0
Gathers fuel file p m g a bytes =
    (f : Fields) × (g' : Gathered) × (end : ℕ) × (get_field file p ≡ returned f)
    × (gather_element p f m g (parse fuel m file f.position) (parse fuel new_bmap file f.position)
        ≡ returned (m, g', end))
    × (end ≡ p + length bytes)
    × (items_of g' ≡ returned (a ++ bytes))

-- The loop over elements reads them all.
abbrev pub ReadsItems : ℕ → Bytes → ℕ → BMap → Gathered → Bytes → Bytes → Type 0
ReadsItems fuel file p m g a bytes =
    (g' : Gathered) × (list_loop fuel m g file p ≡ returned (m, g', p + length bytes))
    × (items_of g' ≡ returned (a ++ bytes))

module _ (file : Bytes) (bound : length file < 2 ^ 63) (fuel p : ℕ) (m : BMap) where
  pub text-Gathers :
      (s rest : Bytes)
      → drop p file ≡ sized s ++ (b'e' ∷ rest)
      → Gathers fuel file p m empty_list [] (sized s)
  text-Gathers s rest h =
      let q = p + length (sized s) in
      (
        record { seq = s ∷ []; position = q; field = b'e' },
        gather_string (information string_type [] p q q 0) s empty_list,
        q,
        get_field_end file bound p s b'e' rest (inr (inr refl)) h,
        gather_element_text p q s m empty_list _ _,
        refl,
        gather_string-items s p q q,
      )

  module _ (g : Gathered) (a : Bytes) (printed : items_of g ≡ returned a) (bytes rest : Bytes) where
    pub dict-Gathers :
        drop p file ≡ (b'd' ∷ (bytes ++ (b'e' ∷ []))) ++ rest
        → length (printed_maps g) ≡ length g.infos
        → ParsesDict fuel file p new_bmap bytes
        → (gathers : Gathers fuel file p m g a (b'd' ∷ (bytes ++ (b'e' ∷ [])))) × (length
              (printed_maps gathers.1)
            ≡ length gathers.1.infos)
    dict-Gathers h even (d, runs, shows) =
        let end = p + 1 + length bytes + 1 in
        let info = information dict_type (format_uint g.n_maps) p p end (length g.infos) in
        (
          (
            record { seq = []; position = p; field = b'd' },
            gather_map info (some d) g,
            end,
            get_field_container file bound p b'd' _ (inl refl) h,
            rw runs (gather_element_dict p p m g _ _),
            omega (arith, length-append bytes (b'e' ∷ [])),
            gather_map-items (format_uint g.n_maps) p p end g a _ d even shows printed,
          ),
          gather_map-length info d g even,
        )

    pub list-Gathers :
        drop p file ≡ (b'l' ∷ (bytes ++ (b'e' ∷ []))) ++ rest
        → length (printed_lists g) ≡ length g.infos
        → ParsesList fuel file p m bytes
        → (gathers : Gathers fuel file p m g a (b'l' ∷ (bytes ++ (b'e' ∷ [])))) × (length
              (printed_lists gathers.1)
            ≡ length gathers.1.infos)
    list-Gathers h even (l, runs, shows) =
        let end = p + 1 + length bytes + 1 in
        let info = information list_type (format_uint g.n_lists) p p end (length g.infos) in
        (
          (
            record { seq = []; position = p; field = b'l' },
            gather_list info (some (gathered_list l)) g,
            end,
            get_field_container file bound p b'l' _ (inr (inl refl)) h,
            rw runs (gather_element_list p p m g _ _),
            omega (arith, length-append bytes (b'e' ∷ [])),
            gather_list-items (format_uint g.n_lists) p p end g a _ (gathered_list l) even shows
                printed,
          ),
          gather_list-length info (gathered_list l) g even,
        )

  pub items_last :
      (g : Gathered) (a bytes rest : Bytes)
      → drop p file ≡ bytes ++ (b'e' ∷ rest)
      → Gathers fuel file p m g a bytes
      → ReadsItems (suc fuel) file p m g a bytes
  items_last g a bytes rest h (f, g', end, field, gathers, at, shows) = (
    g',
    list_loop_last fuel m file p f g g' m end field gathers rest (behind file p end bytes _ h at)
        ∙ ap (λ e. returned (m, g', e)) at,
    shows,
  )

  pub items_more :
      (g : Gathered) (a bytes more_bytes rest : Bytes) (c : ℕ)
      → (c == b'e') ≡ false
      → drop p file ≡ bytes ++ (c ∷ rest)
      → (gathers : Gathers fuel file p m g a bytes)
      → ReadsItems fuel file (p + length bytes) m gathers.1 (a ++ bytes) more_bytes
      → ReadsItems (suc fuel) file p m g a (bytes ++ more_bytes)
  items_more g a bytes more_bytes rest c other h (f, g', end, field, gathers, at, shows)
        (g'', runs, shows') =
      (
        g'',
        list_loop_more fuel m file p f g g' m end field gathers c rest other
              (behind file p end bytes _ h at)
            ∙ ap (λ e. list_loop fuel m g' file e) at
            ∙ runs
            ∙ ap (λ e. returned (m, g'', e)) (omega (arith, length-append bytes more_bytes)),
        shows' ∙ ap returned (append_assoc a bytes more_bytes),
      )
