-- ===== src/Bencode/Loops.antt =====
-- parser/bencode_parser.go: the loops over entries and elements, one round after the other.
use dawn_torrent.Base.{
  ℕ, zero, suc, ◌+◌, ◌*◌, ◌^◌, ◌<◌, ◌≤◌, ◌≡◌, refl, ap, ◌∙◌, sym, subst, false, [], ◌∷◌, ◌++◌,
  Bytes, All, length, length-append, drop, equal_bytes, ◌==◌, arith,
}
use mathlib.Core.List.{append_assoc}
use dawn_torrent.Base.Decimal.{format_uint-first, All-snoc}
use dawn_torrent.Bencode.Parsing.{returned}
use dawn_torrent.Bencode.{
  ContainerInformation, BMap, print_items, print_map_items, print_list_items, sized,
}
use dawn_torrent.Bencode.Documents.{
  list, Dictionary, one, more, Listing, Dictionaries, last_dict, more_dicts, Listings, last_list,
  more_lists, encode, encode_element, encode_entries, encode_items, encode_dicts, encode_lists,
  Absent,
}
use dawn_torrent.Bencode.Field.Elements.{behind, length-sized}
use dawn_torrent.Bencode.Field.Scanning.{digit_tests}
use dawn_torrent.Bencode.Parser.{empty_list, dict_loop}
use dawn_torrent.Bencode.Printing.{infos_of, entries_of, IsFresh, to_bencode-entries_of}
use dawn_torrent.Bencode.Gathering.{items_of, printed_maps, printed_lists, list_to_bencode-items_of}
use dawn_torrent.Bencode.Steps.{parse_dict, parse_list, dict_loop_last, dict_loop_more}
use dawn_torrent.Bencode.Items.{ReadsItems}
use dawn_torrent.Bencode.Entries.{Adds, ParsesDict, ParsesList}

-- Every key of the dictionary is new to the map.
abbrev pub AreFresh : Dictionary → BMap → Type 0
AreFresh (one k e) m = IsFresh k m
AreFresh (more k e d) m = IsFresh k m × AreFresh d m

pub IsFresh-extend :
    (j k : Bytes) (m m' : BMap) (info : ContainerInformation)
    → equal_bytes j k ≡ false
    → infos_of m' ≡ infos_of m ++ (info ∷ [])
    → info.key ≡ k
    → IsFresh j m
    → IsFresh j m'
IsFresh-extend j k m m' info other grown key fresh =
    subst (All (λ i. equal_bytes j i.key ≡ false)) (sym grown) (
      All-snoc (λ i. equal_bytes j i.key ≡ false) (infos_of m) info fresh
        (ap (equal_bytes j) key ∙ other))

pub AreFresh-extend :
    (d : Dictionary) (k : Bytes) (m m' : BMap) (info : ContainerInformation)
    → Absent k d
    → infos_of m' ≡ infos_of m ++ (info ∷ [])
    → info.key ≡ k
    → AreFresh d m
    → AreFresh d m'
AreFresh-extend (one j e) k m m' info other grown key fresh =
    IsFresh-extend j k m m' info other grown key fresh
AreFresh-extend (more j e d) k m m' info other grown key fresh = (
  IsFresh-extend j k m m' info other.0 grown key fresh.0,
  AreFresh-extend d k m m' info other.1 grown key fresh.1,
)

pub IsFresh-empty : (j : Bytes) (m : BMap) → infos_of m ≡ [] → IsFresh j m
IsFresh-empty j m h = subst (All (λ i. equal_bytes j i.key ≡ false)) (sym h) tt

pub AreFresh-empty : (d : Dictionary) (m : BMap) → infos_of m ≡ [] → AreFresh d m
AreFresh-empty (one j e) m h = IsFresh-empty j m h
AreFresh-empty (more j e d) m h = (IsFresh-empty j m h, AreFresh-empty d m h)

-- The loop over entries reads them all.
abbrev pub ReadsEntries : ℕ → Bytes → ℕ → BMap → Bytes → Bytes → Type 0
ReadsEntries fuel file p m a bytes =
    (m' : BMap) × (dict_loop fuel m file p ≡ returned (m', p + length bytes))
    × (entries_of m' ≡ returned (a ++ bytes))

pub sized_first :
    (k bytes : Bytes)
    → (c : ℕ) × (more_bytes : Bytes) × (sized k ++ bytes ≡ c ∷ more_bytes) × ((c == b'e') ≡ false)
sized_first k bytes =
    let (c, ds, e, digit) = format_uint-first (length k) in
    (
      c,
      (ds ++ (b':' ∷ k)) ++ bytes,
      ap (λ l. (l ++ (b':' ∷ k)) ++ bytes) e,
      (digit_tests c digit).3,
    )

-- The encoding of a key and a text, number or container has two bytes at least.
pub entry_bytes : (k bytes : Bytes) → 2 + length bytes ≤ length (sized k ++ bytes)
entry_bytes k bytes =
    let (c, ds, e, digit) = format_uint-first (length k) in
    omega (arith, length-append (sized k) bytes, length-sized k, ap length e)

pub entries_first :
    (d : Dictionary)
    → (c : ℕ) × (bytes : Bytes) × (encode_entries d ≡ c ∷ bytes) × ((c == b'e') ≡ false)
entries_first (one k e) = sized_first k (encode_element e)
entries_first (more k e d) =
    let (c, bytes, first, other) = sized_first k (encode_element e) in
    (c, bytes ++ encode_entries d, ap (λ l. l ++ encode_entries d) first, other)

module _ (file : Bytes) (bound : length file < 2 ^ 63) where
  -- A round behind which the loop ends, and one behind which it goes on.
  pub loop_last :
      (fuel p : ℕ) (k : Bytes) (m : BMap) (a bytes rest : Bytes)
      → drop p file ≡ bytes ++ (b'e' ∷ rest)
      → (added : Adds fuel file p k m a bytes)
      → dict_loop (suc fuel) m file p ≡ returned (added.1, p + length bytes)
  loop_last fuel p k m a bytes rest h (f, m', info, end, field, adds, at, _, _, _, _) =
      dict_loop_last fuel m file p f m' end field adds rest (behind file p end bytes _ h at)
      ∙ ap (λ e. returned (m', e)) at

  pub loop_more :
      (fuel p : ℕ) (k : Bytes) (m : BMap) (a bytes rest : Bytes) (c : ℕ)
      → ((c == b'e') ≡ false)
      → drop p file ≡ bytes ++ (c ∷ rest)
      → (added : Adds fuel file p k m a bytes)
      → dict_loop (suc fuel) m file p ≡ dict_loop fuel added.1 file (p + length bytes)
  loop_more fuel p k m a bytes rest c other h (f, m', info, end, field, adds, at, _, _, _, _) =
      dict_loop_more fuel m file p f m' end field adds c rest other (behind file p end bytes _ h at)
      ∙ ap (λ e. dict_loop fuel m' file e) at

  pub reads_last :
      (fuel p : ℕ) (k : Bytes) (m : BMap) (a bytes rest : Bytes)
      → drop p file ≡ bytes ++ (b'e' ∷ rest)
      → Adds fuel file p k m a bytes
      → ReadsEntries (suc fuel) file p m a bytes
  reads_last fuel p k m a bytes rest h added =
      (added.1, loop_last fuel p k m a bytes rest h added, added.7)

  pub reads_more :
      (fuel p : ℕ) (k : Bytes) (m : BMap) (a bytes more_bytes rest : Bytes) (c : ℕ)
      → ((c == b'e') ≡ false)
      → drop p file ≡ bytes ++ (c ∷ rest)
      → (added : Adds fuel file p k m a bytes)
      → ReadsEntries fuel file (p + length bytes) added.1 (a ++ bytes) more_bytes
      → ReadsEntries (suc fuel) file p m a (bytes ++ more_bytes)
  reads_more fuel p k m a bytes more_bytes rest c other h added (m'', runs, shows') = (
    m'',
    loop_more fuel p k m a bytes rest c other h added
        ∙ runs
        ∙ ap (λ e. returned (m'', e)) (omega (arith, length-append bytes more_bytes)),
    shows' ∙ ap returned (append_assoc a bytes more_bytes),
  )

pub items_of-empty_list : items_of empty_list ≡ returned []
unfolding print_items
items_of-empty_list = refl

pub even_maps-empty_list : length (printed_maps empty_list) ≡ length empty_list.infos
unfolding print_map_items
even_maps-empty_list = refl

pub even_lists-empty_list : length (printed_lists empty_list) ≡ length empty_list.infos
unfolding print_list_items
even_lists-empty_list = refl

pub dicts_first : (ds : Dictionaries) → (bytes : Bytes) × (encode_dicts ds ≡ b'd' ∷ bytes)
dicts_first (last_dict d) = (_, refl)
dicts_first (more_dicts d ds) = (_, refl)

pub lists_first : (ls : Listings) → (bytes : Bytes) × (encode_lists ls ≡ b'l' ∷ bytes)
lists_first (last_list l) = (_, refl)
lists_first (more_lists l ls) = (_, refl)

-- The bytes of a container without its letter and its end.
pub container_bytes : (bytes : Bytes) → length (bytes ++ (b'e' ∷ [])) ≡ length bytes + 1
container_bytes bytes = length-append bytes (b'e' ∷ [])

module _ (file : Bytes) (p : ℕ) (rest : Bytes) where
  -- `Parse` of a dictionary whose entries the loop reads.
  pub parses_dict :
      (d : Dictionary) (fuel : ℕ) (m : BMap)
      → 2 * length (encode d) ≤ fuel + 1
      → drop p file ≡ encode d ++ rest
      → ((fuel' : ℕ) (m' : BMap)
          → 2 * length (encode_entries d) ≤ fuel'
          → AreFresh d m'
          → entries_of m' ≡ returned []
          → drop (p + 1) file ≡ encode_entries d ++ (b'e' ∷ rest)
          → ReadsEntries fuel' file (p + 1) m' [] (encode_entries d))
      → ParsesDict fuel file p m (encode_entries d)
  parses_dict d zero m enough h reads =
      absurd (omega (arith, enough, container_bytes (encode_entries d)))
  parses_dict d (suc zero) m enough h reads =
      absurd (omega (arith, enough, container_bytes (encode_entries d)))
  parses_dict d (suc (suc fuel)) m enough h reads =
      let (m0, parses, none_yet, nothing) = parse_dict fuel m file p _ h in
      let (d', runs, shows) =
        reads fuel m0 (omega (arith, enough, container_bytes (encode_entries d)))
          (AreFresh-empty d m0 none_yet) nothing
          (behind file p (p + 1) (b'd' ∷ []) _ h refl
            ∙ append_assoc (encode_entries d) (b'e' ∷ []) rest) in
      (d', parses d' _ runs, to_bencode-entries_of d' _ shows)

  pub parses_list :
      (l : Listing) (fuel : ℕ) (m : BMap)
      → 2 * length (encode_element (list l)) ≤ fuel + 1
      → drop p file ≡ encode_element (list l) ++ rest
      → ((fuel' : ℕ)
          → 2 * length (encode_items l) ≤ fuel'
          → drop (p + 1) file ≡ encode_items l ++ (b'e' ∷ rest)
          → ReadsItems fuel' file (p + 1) m empty_list [] (encode_items l))
      → ParsesList fuel file p m (encode_items l)
  parses_list l zero m enough h reads =
      absurd (omega (arith, enough, container_bytes (encode_items l)))
  parses_list l (suc zero) m enough h reads =
      absurd (omega (arith, enough, container_bytes (encode_items l)))
  parses_list l (suc (suc fuel)) m enough h reads =
      let (g, runs, shows) = reads fuel (omega (arith, enough, container_bytes (encode_items l))) (
        behind file p (p + 1) (b'l' ∷ []) _ h refl
        ∙ append_assoc (encode_items l) (b'e' ∷ []) rest) in
      (g, parse_list fuel m file p _ g _ h runs, list_to_bencode-items_of g _ shows)
