-- ===== src/Bencode/Gathering.antt =====
-- parser/bencode_parser.go: how `ToBencode` prints a list that the parser extends.
use dawn_torrent.Base.{
  ℕ, ◌-◌, ◌≡◌, refl, ap, ◌∙◌, sym, List, [], ◌∷◌, ◌++◌, Bytes, some, length, length-append,
  get_elem?, get_elem?-append_left, get_elem?-append_right, get_elem?-none, dec_lt, arith,
}
use mathlib.Core.List.{append_assoc, append-nil}
use dawn_torrent.Bencode.Parsing.{
  Parsed, returned, crashed, or_crash, ◌>>=◌, returned_before, returned-injective,
}
use dawn_torrent.Bencode.{
  ContainerInformation, BMap, BList, MapItems, no_map_items, nil_map, map_item, ListItems,
  no_list_items, nil_list, list_item, sized, string_type, list_type, dict_type, print_item,
  print_items, to_bencode, list_to_bencode, print_map_items, print_list_items,
}
use dawn_torrent.Bencode.Parser.{
  information, Gathered, empty_list, gathered_list, gather_string, gather_map, gather_list,
}

abbrev pub printed_maps : Gathered → List (Parsed Bytes)
printed_maps g = print_map_items g.maps []

abbrev pub printed_lists : Gathered → List (Parsed Bytes)
printed_lists g = print_list_items g.lists []

-- What a list's elements are printed as.
abbrev pub items_of : Gathered → Parsed Bytes
items_of g = print_items g.strings (printed_maps g) (printed_lists g) g.infos

pub list_to_bencode-items_of :
    (g : Gathered) (bytes : Bytes)
    → items_of g ≡ returned bytes
    → list_to_bencode (gathered_list g) ≡ returned (b'l' ∷ (bytes ++ (b'e' ∷ [])))
unfolding list_to_bencode
list_to_bencode-items_of g bytes h = rw h refl

print_map_items-acc :
    (ms : MapItems) (acc : List (Parsed Bytes))
    → print_map_items ms acc ≡ print_map_items ms [] ++ acc
unfolding print_map_items
print_map_items-acc no_map_items acc = refl
print_map_items-acc (nil_map ms) acc =
    print_map_items-acc ms (crashed ∷ acc)
    ∙ sym (append_assoc (print_map_items ms []) (crashed ∷ []) acc)
    ∙ ap (λ l. l ++ acc) (sym (print_map_items-acc ms (crashed ∷ [])))
print_map_items-acc (map_item m ms) acc =
    print_map_items-acc ms (to_bencode m ∷ acc)
    ∙ sym (append_assoc (print_map_items ms []) (to_bencode m ∷ []) acc)
    ∙ ap (λ l. l ++ acc) (sym (print_map_items-acc ms (to_bencode m ∷ [])))

print_list_items-acc :
    (ls : ListItems) (acc : List (Parsed Bytes))
    → print_list_items ls acc ≡ print_list_items ls [] ++ acc
unfolding print_list_items
print_list_items-acc no_list_items acc = refl
print_list_items-acc (nil_list ls) acc =
    print_list_items-acc ls (crashed ∷ acc)
    ∙ sym (append_assoc (print_list_items ls []) (crashed ∷ []) acc)
    ∙ ap (λ l. l ++ acc) (sym (print_list_items-acc ls (crashed ∷ [])))
print_list_items-acc (list_item m ls) acc =
    print_list_items-acc ls (list_to_bencode m ∷ acc)
    ∙ sym (append_assoc (print_list_items ls []) (list_to_bencode m ∷ []) acc)
    ∙ ap (λ l. l ++ acc) (sym (print_list_items-acc ls (list_to_bencode m ∷ [])))

-- An element that is found is still found in a longer list.
or_crash-append {ℓ} :
    {A : Type ℓ} (xs ys : List A) (i : ℕ) (a : A)
    → or_crash (get_elem? xs i) ≡ returned a
    → or_crash (get_elem? (xs ++ ys) i) ≡ returned a
or_crash-append xs ys i a h = elim (dec_lt i (length xs)) [
  | yes inside ↦ ap or_crash (get_elem?-append_left xs ys i inside) ∙ h
  | no outside ↦ absurd (ground (arith, h, get_elem?-none xs i))
]

found-append {ℓ κ} :
    {A : Type ℓ} {B : Type κ} (xs ys : List A) (i : ℕ) (f : A → Parsed B) (b : B)
    → or_crash (get_elem? xs i) >>= f ≡ returned b
    → or_crash (get_elem? (xs ++ ys) i) >>= f ≡ returned b
found-append xs ys i f b h =
    let (a, found, e) = returned_before (or_crash (get_elem? xs i)) f b h in
    ap (λ r. r >>= f) (or_crash-append xs ys i a found) ∙ e

-- What is appended stands behind.
or_crash-snoc {ℓ} :
    {A : Type ℓ} (xs : List A) (a : A) (i : ℕ)
    → length xs ≡ i
    → or_crash (get_elem? (xs ++ (a ∷ [])) i) ≡ returned a
or_crash-snoc xs a i h = ap or_crash (
    get_elem?-append_right xs (a ∷ []) i (omega (arith, h))
    ∙ ap (get_elem? (a ∷ [])) {x = i - length xs} {y = 0} (omega (arith, h)))

-- What prints an element goes on printing it when further maps and lists are behind.
print_item-append :
    (s : List Bytes) (m l more_m more_l : List (Parsed Bytes)) (info : ContainerInformation)
    (a : Bytes)
    → print_item s m l info ≡ returned a
    → print_item s (m ++ more_m) (l ++ more_l) info ≡ returned a
unfolding print_item
print_item-append s m l more_m more_l info a h = ground (
  arith,
  found-append m more_m info.index (λ r. r) a,
  found-append l more_l info.index (λ r. r) a,
)

print_items-append :
    (s : List Bytes) (m l more_m more_l : List (Parsed Bytes)) (infos : List ContainerInformation)
    (a : Bytes)
    → print_items s m l infos ≡ returned a
    → print_items s (m ++ more_m) (l ++ more_l) infos ≡ returned a
unfolding print_items
print_items-append s m l more_m more_l [] a h = h
print_items-append s m l more_m more_l (info ∷ infos) a h =
    let (x, hx, hr) = returned_before (print_item s m l info) _ a h in
    let (y, hy, e) =
      returned_before (print_items s m l infos) (λ rest. returned (x ++ rest)) a hr in
    rw
      (
        print_item-append s m l more_m more_l info x hx,
        print_items-append s m l more_m more_l infos y hy,
      )
      e

print_items-snoc :
    (s : List Bytes) (m l : List (Parsed Bytes)) (infos : List ContainerInformation)
    (info : ContainerInformation) (a b : Bytes)
    → print_items s m l infos ≡ returned a
    → print_item s m l info ≡ returned b
    → print_items s m l (infos ++ (info ∷ [])) ≡ returned (a ++ b)
unfolding print_items
print_items-snoc s m l [] info a b ha hb =
    rw (hb, append-nil b) (ap (λ c. returned (c ++ b)) (returned-injective [] a ha))
print_items-snoc s m l (i ∷ infos) info a b ha hb =
    let (x, hx, hr) = returned_before (print_item s m l i) _ a ha in
    let (y, hy, e) =
      returned_before (print_items s m l infos) (λ rest. returned (x ++ rest)) a hr in
    rw
      (
        hx,
        print_items-snoc s m l infos info y b hy hb,
        sym (append_assoc x y b),
        returned-injective (x ++ y) a e,
      )
      refl

-- A list of dictionaries only, or of lists only, has each at its index.
pub gather_string-items :
    (s : Bytes) (start inner end : ℕ)
    → items_of (gather_string (information string_type [] start inner end 0) s empty_list)
      ≡ returned (sized s)
unfolding print_items print_map_items
gather_string-items s start inner end = ap returned (append-nil (sized s))

module _ (k : Bytes) (start inner end : ℕ) (g : Gathered) (a b : Bytes) where
  pub gather_map-items :
      (d : BMap)
      → length (printed_maps g) ≡ length g.infos
      → to_bencode d ≡ returned b
      → items_of g ≡ returned a
      → items_of (gather_map (information dict_type k start inner end (length g.infos)) (some d) g)
        ≡ returned (a ++ b)
  unfolding print_item print_map_items
  gather_map-items d even printed h =
      let info = information dict_type k start inner end (length g.infos) in
      let maps = printed_maps g ++ (to_bencode d ∷ []) in
      let before : print_items g.strings maps (printed_lists g) g.infos ≡ returned a =
        ap (λ l. print_items g.strings maps l g.infos) (sym (append-nil (printed_lists g)))
        ∙ print_items-append g.strings (printed_maps g) (printed_lists g) (to_bencode d ∷ []) []
            g.infos a h in
      let this : print_item g.strings maps (printed_lists g) info ≡ returned b =
        ap (λ r. r >>= λ x. x) (or_crash-snoc (printed_maps g) (to_bencode d) (length g.infos) even)
        ∙ printed in
      ap (λ ms. print_items g.strings ms (printed_lists g) (g.infos ++ (info ∷ [])))
        (print_map_items-acc g.maps (to_bencode d ∷ []))
      ∙ print_items-snoc g.strings maps (printed_lists g) g.infos info a b before this

  pub gather_list-items :
      (l : BList)
      → length (printed_lists g) ≡ length g.infos
      → list_to_bencode l ≡ returned b
      → items_of g ≡ returned a
      → items_of (gather_list (information list_type k start inner end (length g.infos)) (some l) g)
        ≡ returned (a ++ b)
  unfolding print_item print_list_items
  gather_list-items l even printed h =
      let info = information list_type k start inner end (length g.infos) in
      let lists = printed_lists g ++ (list_to_bencode l ∷ []) in
      let before : print_items g.strings (printed_maps g) lists g.infos ≡ returned a =
        ap (λ m. print_items g.strings m lists g.infos) (sym (append-nil (printed_maps g)))
        ∙ print_items-append g.strings (printed_maps g) (printed_lists g) []
            (list_to_bencode l ∷ []) g.infos a h in
      let this : print_item g.strings (printed_maps g) lists info ≡ returned b =
        ap (λ r. r >>= λ x. x)
          (or_crash-snoc (printed_lists g) (list_to_bencode l) (length g.infos) even)
        ∙ printed in
      ap (λ ls. print_items g.strings (printed_maps g) ls (g.infos ++ (info ∷ [])))
        (print_list_items-acc g.lists (list_to_bencode l ∷ []))
      ∙ print_items-snoc g.strings (printed_maps g) lists g.infos info a b before this

-- The printed elements stay as many as the entries.
pub gather_map-length :
    (info : ContainerInformation) (d : BMap) (g : Gathered)
    → length (printed_maps g) ≡ length g.infos
    → length (printed_maps (gather_map info (some d) g)) ≡ length (gather_map info (some d) g).infos
unfolding print_map_items
gather_map-length info d g h =
    ap length (print_map_items-acc g.maps (to_bencode d ∷ []))
    ∙ omega (
      arith,
      h,
      length-append (printed_maps g) (to_bencode d ∷ []),
      length-append g.infos (info ∷ []),
    )

pub gather_list-length :
    (info : ContainerInformation) (l : BList) (g : Gathered)
    → length (printed_lists g) ≡ length g.infos
    → length (printed_lists (gather_list info (some l) g))
      ≡ length (gather_list info (some l) g).infos
unfolding print_list_items
gather_list-length info l g h =
    ap length (print_list_items-acc g.lists (list_to_bencode l ∷ []))
    ∙ omega (
      arith,
      h,
      length-append (printed_lists g) (list_to_bencode l ∷ []),
      length-append g.infos (info ∷ []),
    )
