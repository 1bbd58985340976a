-- ===== src/Bencode/Reading.antt =====
-- parser/bencode_parser.go: `Parse` on the encoding of a document, by recursion on the document.
use dawn_torrent.Base.{
  ℕ, zero, suc, ◌+◌, ◌*◌, ◌^◌, ◌<◌, ◌≤◌, ◌≡◌, refl, ap, ◌∙◌, [], ◌∷◌, ◌++◌, Bytes, length,
  length-append, drop, arith,
}
use mathlib.Core.List.{append_assoc}
use dawn_torrent.Bencode.Parsing.{returned}
use dawn_torrent.Bencode.{BMap, new_bmap, sized}
use dawn_torrent.Bencode.Documents.{
  Element, text, number, dict, list, Dictionary, one, more, Listing, one_text, dicts, lists,
  Dictionaries, last_dict, more_dicts, Listings, last_list, more_lists, encode, encode_element,
  encode_entries, encode_items, encode_dicts, encode_lists, IsPlainElement, IsPlain, IsPlainListing,
  ArePlain, ArePlainListings,
}
use dawn_torrent.Bencode.Field.Elements.{behind, length-sized}
use dawn_torrent.Bencode.Parser.{Gathered, empty_list}
use dawn_torrent.Bencode.Printing.{entries_of, IsFresh}
use dawn_torrent.Bencode.Gathering.{items_of, printed_maps, printed_lists}
use dawn_torrent.Bencode.Items.{
  ReadsItems, text-Gathers, dict-Gathers, list-Gathers, items_last, items_more,
}
use dawn_torrent.Bencode.Entries.{Adds, ParsesDict, text-Adds, number-Adds, dict-Adds, list-Adds}
use dawn_torrent.Bencode.Loops.{
  AreFresh-extend, entry_bytes, entries_first, reads_last, reads_more, items_of-empty_list,
  even_maps-empty_list, even_lists-empty_list, dicts_first, lists_first, container_bytes,
  parses_dict, parses_list, AreFresh, ReadsEntries,
}

module _ (file : Bytes) (bound : length file < 2 ^ 63) where
  mutual
    pub reads_element :
        (e : Element) (fuel p : ℕ) (k : Bytes) (m : BMap) (a rest : Bytes)
        → IsPlainElement e
        → 2 * length (encode_element e) ≤ fuel + 1
        → IsFresh k m
        → entries_of m ≡ returned a
        → drop p file ≡ (sized k ++ encode_element e) ++ rest
        → Adds fuel file p k m a (sized k ++ encode_element e)
    reads_element (text s) fuel p k m a rest plain enough fresh printed h =
        text-Adds file bound fuel p k m a fresh printed rest s plain h
    reads_element (number n) fuel p k m a rest plain enough fresh printed h =
        number-Adds file bound fuel p k m a fresh printed rest n plain h
    reads_element (dict d) fuel p k m a rest plain enough fresh printed h =
        dict-Adds file bound fuel p k m a fresh printed rest (encode_entries d) h (
          parses_dict file (p + length (sized k)) rest d fuel new_bmap enough
            (behind file p _ (sized k) _ (h ∙ append_assoc (sized k) (encode_element (dict d)) rest)
              refl)
            (λ fuel' m' enough' fresh' nothing there'.
              reads_entries d fuel' ((p + length (sized k)) + 1) m' [] rest plain enough' fresh'
                nothing there'))
    reads_element (list l) fuel p k m a rest plain enough fresh printed h =
        list-Adds file bound fuel p k m a fresh printed rest (encode_items l) h (
          parses_list file (p + length (sized k)) rest l fuel m enough
            (behind file p _ (sized k) _ (h ∙ append_assoc (sized k) (encode_element (list l)) rest)
              refl)
            (λ fuel' enough' there'.
              reads_items l fuel' ((p + length (sized k)) + 1) m rest plain enough' there'))

    pub reads_entries :
        (d : Dictionary) (fuel p : ℕ) (m : BMap) (a rest : Bytes)
        → IsPlain d
        → 2 * length (encode_entries d) ≤ fuel
        → AreFresh d m
        → entries_of m ≡ returned a
        → drop p file ≡ encode_entries d ++ (b'e' ∷ rest)
        → ReadsEntries fuel file p m a (encode_entries d)
    reads_entries (one k e) zero p m a rest plain enough fresh printed h =
        absurd (omega (arith, enough, entry_bytes k (encode_element e)))
    reads_entries (one k e) (suc fuel) p m a rest plain enough fresh printed h =
        reads_last file bound fuel p k m a _ rest h (
          reads_element e fuel p k m a (b'e' ∷ rest) plain
            (omega (arith, enough, entry_bytes k (encode_element e))) fresh printed h)
    reads_entries (more k e d) zero p m a rest plain enough fresh printed h = absurd (
        omega (
          arith,
          enough,
          entry_bytes k (encode_element e),
          length-append (sized k ++ encode_element e) (encode_entries d),
        ))
    reads_entries (more k e d) (suc fuel) p m a rest plain enough fresh printed h =
        let here = sized k ++ encode_element e in
        let size = length-append here (encode_entries d) in
        let there = h ∙ append_assoc here (encode_entries d) (b'e' ∷ rest) in
        let added =
          reads_element e fuel p k m a (encode_entries d ++ (b'e' ∷ rest)) plain.0
            (omega (arith, enough, entry_bytes k (encode_element e), size)) fresh.0 printed there in
        let (c, bytes, first, other) = entries_first d in
        reads_more file bound fuel p k m a here (encode_entries d) (bytes ++ (b'e' ∷ rest)) c other
          (there ∙ ap (λ l. here ++ (l ++ (b'e' ∷ rest))) first) added
          (reads_entries d fuel (p + length here) added.1 (a ++ here) rest plain.2
            (omega (arith, enough, entry_bytes k (encode_element e), size))
            (AreFresh-extend d k m added.1 added.2 plain.1 added.8 added.9 fresh.1) added.7
            (behind file p _ here _ there refl))

    reads_items :
        (l : Listing) (fuel p : ℕ) (m : BMap) (rest : Bytes)
        → IsPlainListing l
        → 2 * length (encode_items l) ≤ fuel
        → drop p file ≡ encode_items l ++ (b'e' ∷ rest)
        → ReadsItems fuel file p m empty_list [] (encode_items l)
    reads_items (one_text s) zero p m rest plain enough h =
        absurd (omega (arith, enough, length-sized s))
    reads_items (one_text s) (suc fuel) p m rest plain enough h =
        items_last file bound fuel p m empty_list [] (sized s) rest h
          (text-Gathers file bound fuel p m s rest h)
    reads_items (dicts ds) fuel p m rest plain enough h =
        reads_dicts ds fuel p m empty_list [] rest plain enough items_of-empty_list
          even_maps-empty_list h
    reads_items (lists ls) fuel p m rest plain enough h =
        reads_lists ls fuel p m empty_list [] rest plain enough items_of-empty_list
          even_lists-empty_list h

    reads_dicts :
        (ds : Dictionaries) (fuel p : ℕ) (m : BMap) (g : Gathered) (a rest : Bytes)
        → ArePlain ds
        → 2 * length (encode_dicts ds) ≤ fuel
        → items_of g ≡ returned a
        → length (printed_maps g) ≡ length g.infos
        → drop p file ≡ encode_dicts ds ++ (b'e' ∷ rest)
        → ReadsItems fuel file p m g a (encode_dicts ds)
    reads_dicts (last_dict d) zero p m g a rest plain enough printed even h =
        absurd (omega (arith, enough))
    reads_dicts (last_dict d) (suc fuel) p m g a rest plain enough printed even h =
        let (gathers, even') =
          dict-Gathers file bound fuel p m g a printed (encode_entries d) (b'e' ∷ rest) h even (
            parses_dict file p (b'e' ∷ rest) d fuel new_bmap (omega (arith, enough)) h
              (λ fuel' m' enough' fresh' nothing there'.
                reads_entries d fuel' (p + 1) m' [] (b'e' ∷ rest) plain enough' fresh' nothing
                  there')) in
        items_last file bound fuel p m g a (encode d) rest h gathers
    reads_dicts (more_dicts d ds) zero p m g a rest plain enough printed even h =
        absurd (omega (arith, enough))
    reads_dicts (more_dicts d ds) (suc fuel) p m g a rest plain enough printed even h =
        let size = length-append (encode d) (encode_dicts ds) in
        let some_bytes = container_bytes (encode_entries d) in
        let there = h ∙ append_assoc (encode d) (encode_dicts ds) (b'e' ∷ rest) in
        let after = encode_dicts ds ++ (b'e' ∷ rest) in
        let (gathers, even') =
          dict-Gathers file bound fuel p m g a printed (encode_entries d) after there even (
            parses_dict file p after d fuel new_bmap (omega (arith, enough, size)) there
              (λ fuel' m' enough' fresh' nothing there'.
                reads_entries d fuel' (p + 1) m' [] after plain.0 enough' fresh' nothing there')) in
        let (bytes, first) = dicts_first ds in
        items_more file bound fuel p m g a (encode d) (encode_dicts ds) (bytes ++ (b'e' ∷ rest))
          b'd' refl (there ∙ ap (λ l. (encode d) ++ (l ++ (b'e' ∷ rest))) first) gathers
          (reads_dicts ds fuel (p + length (encode d)) m gathers.1 (a ++ encode d) rest plain.1
            (omega (arith, enough, size, some_bytes)) gathers.6 even'
            (behind file p _ (encode d) _ there refl))

    reads_lists :
        (ls : Listings) (fuel p : ℕ) (m : BMap) (g : Gathered) (a rest : Bytes)
        → ArePlainListings ls
        → 2 * length (encode_lists ls) ≤ fuel
        → items_of g ≡ returned a
        → length (printed_lists g) ≡ length g.infos
        → drop p file ≡ encode_lists ls ++ (b'e' ∷ rest)
        → ReadsItems fuel file p m g a (encode_lists ls)
    reads_lists (last_list l) zero p m g a rest plain enough printed even h =
        absurd (omega (arith, enough))
    reads_lists (last_list l) (suc fuel) p m g a rest plain enough printed even h =
        let (gathers, even') =
          list-Gathers file bound fuel p m g a printed (encode_items l) (b'e' ∷ rest) h even (
            parses_list file p (b'e' ∷ rest) l fuel m (omega (arith, enough)) h
              (λ fuel' enough' there'.
                reads_items l fuel' (p + 1) m (b'e' ∷ rest) plain enough' there')) in
        items_last file bound fuel p m g a (encode_element (list l)) rest h gathers
    reads_lists (more_lists l ls) zero p m g a rest plain enough printed even h =
        absurd (omega (arith, enough))
    reads_lists (more_lists l ls) (suc fuel) p m g a rest plain enough printed even h =
        let size = length-append (encode_element (list l)) (encode_lists ls) in
        let some_bytes = container_bytes (encode_items l) in
        let there = h ∙ append_assoc (encode_element (list l)) (encode_lists ls) (b'e' ∷ rest) in
        let after = encode_lists ls ++ (b'e' ∷ rest) in
        let (gathers, even') =
          list-Gathers file bound fuel p m g a printed (encode_items l) after there even (
            parses_list file p after l fuel m (omega (arith, enough, size)) there
              (λ fuel' enough' there'.
                reads_items l fuel' (p + 1) m after plain.0 enough' there')) in
        let (bytes, first) = lists_first ls in
        items_more file bound fuel p m g a (encode_element (list l)) (encode_lists ls)
          (bytes ++ (b'e' ∷ rest)) b'l' refl
          (there ∙ ap (λ t. (encode_element (list l)) ++ (t ++ (b'e' ∷ rest))) first) gathers
          (reads_lists ls fuel (p + length (encode_element (list l))) m gathers.1
            (a ++ encode_element (list l)) rest plain.1 (omega (arith, enough, size, some_bytes))
            gathers.6 even' (behind file p _ (encode_element (list l)) _ there refl))

  pub reads_dict :
      (d : Dictionary) (fuel p : ℕ) (m : BMap) (rest : Bytes)
      → IsPlain d
      → 2 * length (encode d) ≤ fuel + 1
      → drop p file ≡ encode d ++ rest
      → ParsesDict fuel file p m (encode_entries d)
  reads_dict d fuel p m rest plain enough h =
      parses_dict file p rest d fuel m enough h (λ fuel' m' enough' fresh nothing there.
        reads_entries d fuel' (p + 1) m' [] rest plain enough' fresh nothing there)
