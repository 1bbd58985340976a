-- ===== src/TorrentFile/Placing.antt =====
-- core/torrent.go: where the dictionaries of a document stand, along the parser's loop over its entries.
use dawn_torrent.Base.{
  ℕ, zero, suc, ◌+◌, ◌*◌, ◌^◌, ◌<◌, ◌≤◌, ◌≡◌, ◌⊎◌, inl, inr, refl, sym, ap, subst, ◌∙◌, false, [],
  ◌∷◌, ◌++◌, Bytes, some, length, length-append, drop, equal_bytes, equal_bytes_iff, arith,
}
use mathlib.Core.List.{append_assoc}
use dawn_torrent.Bencode.Parsing.{returned}
use dawn_torrent.Bencode.{ContainerInformation, BMap, bmap, map_entry, new_bmap, sized, dict_type}
use dawn_torrent.Bencode.Documents.{
  Element, text, number, dict, list, Dictionary, one, more, encode, encode_element, encode_entries,
  IsPlainElement, IsPlain, Absent,
}
use dawn_torrent.Bencode.Field.Elements.{behind}
use dawn_torrent.Bencode.Parser.{information, key_info_of, dict_loop}
use dawn_torrent.Bencode.Printing.{entries_of, IsFresh}
use dawn_torrent.Bencode.Entries.{Adds, Extends, maps_of, dict-AddsAt}
use dawn_torrent.Bencode.Loops.{
  AreFresh, AreFresh-extend, entry_bytes, entries_first, parses_dict, loop_last, loop_more,
  container_bytes,
}
use dawn_torrent.Bencode.Reading.{reads_element, reads_entries}
use dawn_torrent.TorrentFile.{find_map, map_at}

-- The entry under a key.
abbrev pub HasEntry : Bytes → Element → Dictionary → Type 0
HasEntry j x (one k e) = (k ≡ j) × (e ≡ x)
HasEntry j x (more k e d) = ((k ≡ j) × (e ≡ x)) ⊎ HasEntry j x d

map_at-maps_of : (j : Bytes) (m : BMap) → map_at j m ≡ find_map j (maps_of m)
unfolding map_at
map_at-maps_of j (bmap infos strings maps lists key_info) = refl

map_at_kept :
    (j k : Bytes) (m m' : BMap)
    → equal_bytes k j ≡ false
    → Extends k m m'
    → map_at j m' ≡ map_at j m
unfolding find_map
map_at_kept j k m m' other (inl same) =
    map_at-maps_of j m' ∙ ap (find_map j) same ∙ sym (map_at-maps_of j m)
map_at_kept j k m m' other (inr (x, grown)) =
    map_at-maps_of j m' ∙ ap (find_map j) grown ∙ ground (arith, other) ∙ sym (map_at-maps_of j m)

map_at_there :
    (k : Bytes) (x m m' : BMap) → maps_of m' ≡ map_entry k x (maps_of m) → map_at k m' ≡ some x
unfolding find_map
map_at_there k x m m' grown =
    map_at-maps_of k m' ∙ ap (find_map k) grown ∙ ground (arith, equal_bytes_iff k k)

module _ (file : Bytes) where
  -- The map has a dictionary under the key, whose information says where its encoding stands.
  pub record PlacedAt (j : Bytes) (i : Dictionary) (m : BMap) : Type 0 where
    pub map : BMap
    pub position : ContainerInformation
    pub found : map_at j m ≡ some map
    pub known : key_info_of map ≡ some position
    pub ends : position.ending_position ≡ position.inner_starting_position + length (encode i)
    pub rest : Bytes
    pub there : drop position.inner_starting_position file ≡ encode i ++ rest

  abbrev pub Placed : Bytes → Element → BMap → Type 0
  Placed k (dict i) m = PlacedAt k i m
  Placed k (text s) m = Unit {0}
  Placed k (number n) m = Unit {0}
  Placed k (list l) m = Unit {0}

  -- A place that further entries do not touch.
  pub PlacedAt-keeps :
      (j : Bytes) (i : Dictionary) (m m' : BMap)
      → map_at j m' ≡ map_at j m
      → PlacedAt j i m
      → PlacedAt j i m'
  PlacedAt-keeps j i m m' same x = record {
    map = x.map;
    position = x.position;
    found = same ∙ x.found;
    known = x.known;
    ends = x.ends;
    rest = x.rest;
    there = x.there;
  }

  placed_entry :
      (j k : Bytes) (e : Element) (i : Dictionary) (m : BMap)
      → k ≡ j
      → e ≡ dict i
      → Placed k e m
      → PlacedAt j i m
  placed_entry j k e i m key same x =
      subst (λ z. PlacedAt z i m) key (subst (λ y. Placed k y m) same x)

module _ (file : Bytes) (bound : length file < 2 ^ 63) where
  places_element :
      (e : Element) (fuel p : ℕ) (k : Bytes) (m : BMap) (a rest : Bytes)
      → IsPlainElement e
      → 2 * length (encode_element e) ≤ fuel + 1
      → IsFresh k m
      → entries_of m ≡ returned a
      → drop p file ≡ (sized k ++ encode_element e) ++ rest
      → (added : Adds fuel file p k m a (sized k ++ encode_element e)) × Placed file k e added.1
  places_element (text s) fuel p k m a rest plain enough fresh printed h =
      (reads_element file bound (text s) fuel p k m a rest plain enough fresh printed h, tt)
  places_element (number n) fuel p k m a rest plain enough fresh printed h =
      (reads_element file bound (number n) fuel p k m a rest plain enough fresh printed h, tt)
  places_element (list l) fuel p k m a rest plain enough fresh printed h =
      (reads_element file bound (list l) fuel p k m a rest plain enough fresh printed h, tt)
  places_element (dict d) fuel p k m a rest plain enough fresh printed h =
      let q = p + length (sized k) in
      let there =
        behind file p q (sized k) _ (h ∙ append_assoc (sized k) (encode_element (dict d)) rest)
          refl in
      let parsed =
        parses_dict file q rest d fuel new_bmap enough there
          (λ fuel' m' enough' fresh' nothing there'.
            reads_entries file bound d fuel' (q + 1) m' [] rest plain enough' fresh' nothing
              there') in
      let (added, x, grown, known) =
        dict-AddsAt file bound fuel p k m a fresh printed rest (encode_entries d) h parsed in
      (
        added,
        record {
          map = x;
          position = information dict_type k p q (q + 1 + length (encode_entries d) + 1) 0;
          found = map_at_there k x m added.1 grown;
          known = known;
          ends = omega (arith, container_bytes (encode_entries d));
          rest = rest;
          there = there;
        },
      )

  pub record Located (d : Dictionary) (fuel p : ℕ) (m : BMap) : Type 0 where
    pub after : BMap
    pub runs : dict_loop fuel m file p ≡ returned (after, p + length (encode_entries d))
    pub keeps : (j : Bytes) → Absent j d → map_at j after ≡ map_at j m
    pub places : (j : Bytes) (i : Dictionary) → HasEntry j (dict i) d → PlacedAt file j i after

  pub dict_loop-Located :
      (d : Dictionary) (fuel p : ℕ) (m : BMap) (a rest : Bytes)
      → IsPlain d
      → 2 * length (encode_entries d) ≤ fuel
      → AreFresh d m
      → entries_of m ≡ returned a
      → drop p file ≡ encode_entries d ++ (b'e' ∷ rest)
      → Located d fuel p m
  dict_loop-Located (one k e) zero p m a rest plain enough fresh printed h =
      absurd (omega (arith, enough, entry_bytes k (encode_element e)))
  dict_loop-Located (one k e) (suc fuel) p m a rest plain enough fresh printed h =
      let (added, placed) =
        places_element e fuel p k m a (b'e' ∷ rest) plain
          (omega (arith, enough, entry_bytes k (encode_element e))) fresh printed h in
      record {
        after = added.1;
        runs = loop_last file bound fuel p k m a _ rest h added;
        keeps = λ j absent. map_at_kept j k m added.1 absent added.10;
        places = λ j i (key, same). placed_entry file j k e i added.1 key same placed;
      }
  dict_loop-Located (more k e d) zero p m a rest plain enough fresh printed h = absurd (
      omega (
        arith,
        enough,
        entry_bytes k (encode_element e),
        length-append (sized k ++ encode_element e) (encode_entries d),
      ))
  dict_loop-Located (more k e d) (suc fuel) p m a rest plain enough fresh printed h =
      let here = sized k ++ encode_element e in
      let size = length-append here (encode_entries d) in
      let there = h ∙ append_assoc here (encode_entries d) (b'e' ∷ rest) in
      let (added, placed) =
        places_element e fuel p k m a (encode_entries d ++ (b'e' ∷ rest)) plain.0
          (omega (arith, enough, entry_bytes k (encode_element e), size)) fresh.0 printed there in
      let (c, bytes, first, other) = entries_first d in
      let t =
        dict_loop-Located d fuel (p + length here) added.1 (a ++ here) rest plain.2
          (omega (arith, enough, entry_bytes k (encode_element e), size))
          (AreFresh-extend d k m added.1 added.2 plain.1 added.8 added.9 fresh.1) added.7
          (behind file p _ here _ there refl) in
      record {
        after = t.after;
        runs =
            loop_more file bound fuel p k m a here (bytes ++ (b'e' ∷ rest)) c other
              (there ∙ ap (λ l. here ++ (l ++ (b'e' ∷ rest))) first) added
            ∙ t.runs
            ∙ ap (λ n. returned (t.after, n)) (omega (arith, size));
        keeps = λ j (apart, absent). t.keeps j absent ∙ map_at_kept j k m added.1 apart added.10;
        places = λ j i entry. elim entry [
          | inl (key, same) ↦
              PlacedAt-keeps file j i added.1 t.after
                (t.keeps j (subst (λ z. Absent z d) key plain.1))
                (placed_entry file j k e i added.1 key same placed)
          | inr later ↦ t.places j i later
        ];
      }
