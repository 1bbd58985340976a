-- ===== src/Bencode/Printing.antt =====
-- parser/bencode_parser.go: how `ToBencode` prints a dictionary or a list that the parser extends.
use dawn_torrent.Base.{
  ℕ, ◌≡◌, refl, ap, ◌∙◌, sym, false, List, [], ◌∷◌, ◌++◌, Bytes, some, All, equal_bytes,
  equal_bytes_self, arith,
}
use mathlib.Core.List.{append_assoc, append-nil}
use dawn_torrent.Bencode.Parsing.{Parsed, returned, returned_before, returned-injective}
use dawn_torrent.Bencode.Parser.{
  information, set_key_info, set_list_key_info, add_string, add_map, add_list,
}
use dawn_torrent.Bencode.{
  ContainerInformation, BMap, bmap, BList, blist, Printed, lookup, sized, text_or_number,
  string_type, list_type, dict_type, print_entry, print_entries, to_bencode, list_to_bencode,
  print_maps, print_lists,
}

-- The information of a dictionary's entries.
abbrev pub infos_of : BMap → List ContainerInformation
infos_of (bmap infos strings maps lists key_info) = infos

-- No entry of a dictionary has the key.
abbrev pub IsFresh : Bytes → BMap → Type 0
IsFresh k m = All (λ info. equal_bytes k info.key ≡ false) (infos_of m)

-- What a dictionary's entries are printed as.
abbrev pub entries_of : BMap → Parsed Bytes
entries_of (bmap infos strings maps lists key_info) =
    print_entries (record { strings = strings; maps = print_maps maps; lists = print_lists lists })
      infos

pub to_bencode-entries_of :
    (m : BMap) (bytes : Bytes)
    → entries_of m ≡ returned bytes
    → to_bencode m ≡ returned (b'd' ∷ (bytes ++ (b'e' ∷ [])))
unfolding to_bencode
to_bencode-entries_of (bmap infos strings maps lists key_info) bytes h = rw h refl

-- Two printed dictionaries that agree on an entry's key print the entry alike.
abbrev AgreeOn : Printed → Printed → ContainerInformation → Type 0
AgreeOn p q info =
    (lookup info.key p.strings ≡ lookup info.key q.strings)
    × (lookup info.key p.maps ≡ lookup info.key q.maps)
    × (lookup info.key p.lists ≡ lookup info.key q.lists)

print_entry-AgreeOn :
    (p q : Printed) (info : ContainerInformation)
    → AgreeOn p q info
    → print_entry p info ≡ print_entry q info
unfolding print_entry
print_entry-AgreeOn p q info h = ground (arith, h.0, h.1, h.2)

print_entries-AgreeOn :
    (p q : Printed) (infos : List ContainerInformation)
    → All (AgreeOn p q) infos
    → print_entries p infos ≡ print_entries q infos
unfolding print_entries
print_entries-AgreeOn p q [] h = refl
print_entries-AgreeOn p q (info ∷ infos) h =
    rw (print_entry-AgreeOn p q info h.0, print_entries-AgreeOn p q infos h.1) refl

print_entries-snoc :
    (p : Printed) (infos : List ContainerInformation) (info : ContainerInformation) (a b : Bytes)
    → print_entries p infos ≡ returned a
    → print_entry p info ≡ returned b
    → print_entries p (infos ++ (info ∷ [])) ≡ returned (a ++ b)
unfolding print_entries
print_entries-snoc p [] info a b ha hb =
    rw (hb, append-nil b) (ap (λ c. returned (c ++ b)) (returned-injective [] a ha))
print_entries-snoc p (i ∷ infos) info a b ha hb =
    let (x, hx, hr) = returned_before (print_entry p i) _ a ha in
    let (y, hy, e) = returned_before (print_entries p infos) (λ rest. returned (x ++ rest)) a hr in
    rw
      (
        hx,
        print_entries-snoc p infos info y b hy hb,
        sym (append_assoc x y b),
        returned-injective (x ++ y) a e,
      )
      refl

-- An entry in front of those of a kind is found under its own key only.
lookup_first {ℓ} :
    {A : Type ℓ} (k : Bytes) (v : A) (rest : List (Bytes × A)) → lookup k ((k, v) ∷ rest) ≡ some v
unfolding lookup
lookup_first k v rest = rw (equal_bytes_self k) refl

lookup_behind {ℓ} :
    {A : Type ℓ} (j k : Bytes) (v : A) (rest : List (Bytes × A))
    → equal_bytes k j ≡ false
    → lookup j ((k, v) ∷ rest) ≡ lookup j rest
unfolding lookup
lookup_behind j k v rest h = rw h refl

All-map {ℓ κ τ} :
    {A : Type ℓ} (P : A → Type κ) (Q : A → Type τ)
    → ((a : A) → P a → Q a)
    → (xs : List A) → All P xs
    → All Q xs
All-map P Q f [] h = tt
All-map P Q f (x ∷ xs) h = (f x h.0, All-map P Q f xs h.1)

print_entries-extend :
    (p q : Printed) (infos : List ContainerInformation) (info : ContainerInformation) (a b : Bytes)
    → All (AgreeOn p q) infos
    → print_entries p infos ≡ returned a
    → print_entry q info ≡ returned b
    → print_entries q (infos ++ (info ∷ [])) ≡ returned (a ++ b)
print_entries-extend p q infos info a b agree ha hb =
    print_entries-snoc q infos info a b (sym (print_entries-AgreeOn p q infos agree) ∙ ha) hb

pub to_bencode-set_key_info :
    (info : ContainerInformation) (m : BMap) → to_bencode (set_key_info info m) ≡ to_bencode m
unfolding to_bencode
to_bencode-set_key_info info (bmap infos strings maps lists key_info) = refl

list_to_bencode-set_list_key_info :
    (info : ContainerInformation) (l : BList)
    → list_to_bencode (set_list_key_info info l) ≡ list_to_bencode l
unfolding list_to_bencode
list_to_bencode-set_list_key_info info (blist infos strings maps lists key_info) = refl

module _ (k : Bytes) (start inner end index : ℕ) where
  pub add_string-entries :
      (s : Bytes) (m : BMap) (a : Bytes)
      → IsFresh k m
      → entries_of m ≡ returned a
      → entries_of (add_string (information string_type k start inner end index) s m)
        ≡ returned (a ++ (sized k ++ text_or_number s))
  unfolding print_entry
  add_string-entries s (bmap infos strings maps lists key_info) a fresh h =
      print_entries-extend _ _ infos (information string_type k start inner end index) a _
        (All-map _ _ (λ i e. (sym (lookup_behind i.key k s strings e), refl, refl)) infos fresh) h
        (rw (print_entry, lookup_first k s strings) refl)

  pub add_map-entries :
      (d : BMap) (b : Bytes) (m : BMap) (a : Bytes)
      → to_bencode d ≡ returned b
      → IsFresh k m
      → entries_of m ≡ returned a
      → entries_of (add_map (information dict_type k start inner end index) d m)
        ≡ returned (a ++ (sized k ++ b))
  unfolding print_entry print_maps
  add_map-entries d b (bmap infos strings maps lists key_info) a printed fresh h =
      let info = information dict_type k start inner end index in
      let child = to_bencode (set_key_info info d) in
      let same : child ≡ returned b = to_bencode-set_key_info info d ∙ printed in
      print_entries-extend
        (record { strings = strings; maps = print_maps maps; lists = print_lists lists })
        (record {
          strings = strings;
          maps = (k, child) ∷ print_maps maps;
          lists = print_lists lists;
        })
        infos info a _
        (All-map _ _ (λ i e. (refl, sym (lookup_behind i.key k child (print_maps maps) e), refl))
          infos fresh)
        h (rw (lookup_first k child (print_maps maps), same) refl)

  pub add_list-entries :
      (l : BList) (b : Bytes) (m : BMap) (a : Bytes)
      → list_to_bencode l ≡ returned b
      → IsFresh k m
      → entries_of m ≡ returned a
      → entries_of (add_list (information list_type k start inner end index) l m)
        ≡ returned (a ++ (sized k ++ b))
  unfolding print_entry print_lists
  add_list-entries l b (bmap infos strings maps lists key_info) a printed fresh h =
      let info = information list_type k start inner end index in
      let child = list_to_bencode (set_list_key_info info l) in
      let same : child ≡ returned b = list_to_bencode-set_list_key_info info l ∙ printed in
      print_entries-extend
        (record { strings = strings; maps = print_maps maps; lists = print_lists lists })
        (record {
          strings = strings;
          maps = print_maps maps;
          lists = (k, child) ∷ print_lists lists;
        })
        infos info a _
        (All-map _ _ (λ i e. (refl, refl, sym (lookup_behind i.key k child (print_lists lists) e)))
          infos fresh)
        h (rw (lookup_first k child (print_lists lists), same) refl)
