-- ===== src/Bencode/Documents.antt =====
-- The documents that the bencode parser of parser/bencode_parser.go reads and prints whole:
-- dictionaries and lists that are not empty, whose lists hold one text, or dictionaries only, or
-- lists only. `encode` is the bencoding of the format's specification.
use dawn_torrent.Base.{ℕ, ◌^◌, ◌<◌, ◌≡◌, false, [], ◌∷◌, ◌++◌, Bytes, none, equal_bytes}
use dawn_torrent.Base.Decimal.{format_uint, atoi}
use dawn_torrent.Bencode.{sized}

mutual
  pub data Element : Type 0 where
    text : Bytes → Element
    number : ℕ → Element
    dict : Dictionary → Element
    list : Listing → Element

  -- A dictionary as its entries in order.
  pub data Dictionary : Type 0 where
    one : Bytes → Element → Dictionary
    more : Bytes → Element → Dictionary → Dictionary

  pub data Listing : Type 0 where
    one_text : Bytes → Listing
    dicts : Dictionaries → Listing
    lists : Listings → Listing

  pub data Dictionaries : Type 0 where
    last_dict : Dictionary → Dictionaries
    more_dicts : Dictionary → Dictionaries → Dictionaries

  pub data Listings : Type 0 where
    last_list : Listing → Listings
    more_lists : Listing → Listings → Listings

abbrev mutual
  pub encode_element : Element → Bytes
  encode_element (text s) = sized s
  encode_element (number n) = b'i' ∷ (format_uint n ++ (b'e' ∷ []))
  encode_element (dict d) = b'd' ∷ (encode_entries d ++ (b'e' ∷ []))
  encode_element (list l) = b'l' ∷ (encode_items l ++ (b'e' ∷ []))

  pub encode_entries : Dictionary → Bytes
  encode_entries (one k e) = sized k ++ encode_element e
  encode_entries (more k e d) = (sized k ++ encode_element e) ++ encode_entries d

  pub encode_items : Listing → Bytes
  encode_items (one_text s) = sized s
  encode_items (dicts ds) = encode_dicts ds
  encode_items (lists ls) = encode_lists ls

  pub encode_dicts : Dictionaries → Bytes
  encode_dicts (last_dict d) = b'd' ∷ (encode_entries d ++ (b'e' ∷ []))
  encode_dicts (more_dicts d ds) = (b'd' ∷ (encode_entries d ++ (b'e' ∷ []))) ++ encode_dicts ds

  pub encode_lists : Listings → Bytes
  encode_lists (last_list l) = b'l' ∷ (encode_items l ++ (b'e' ∷ []))
  encode_lists (more_lists l ls) = (b'l' ∷ (encode_items l ++ (b'e' ∷ []))) ++ encode_lists ls

abbrev pub encode : Dictionary → Bytes
encode d = b'd' ∷ (encode_entries d ++ (b'e' ∷ []))

-- No entry has the key.
abbrev pub Absent : Bytes → Dictionary → Type 0
Absent k (one j e) = equal_bytes j k ≡ false
Absent k (more j e d) = (equal_bytes j k ≡ false) × Absent k d

-- Keys differ, numbers fit an int, and a text of a dictionary does not read as a number.
abbrev mutual
  pub IsPlainElement : Element → Type 0
  IsPlainElement (text s) = atoi s ≡ none
  IsPlainElement (number n) = n < 2 ^ 63
  IsPlainElement (dict d) = IsPlain d
  IsPlainElement (list l) = IsPlainListing l

  pub IsPlain : Dictionary → Type 0
  IsPlain (one k e) = IsPlainElement e
  IsPlain (more k e d) = IsPlainElement e × Absent k d × IsPlain d

  pub IsPlainListing : Listing → Type 0
  IsPlainListing (one_text s) = Unit {_}
  IsPlainListing (dicts ds) = ArePlain ds
  IsPlainListing (lists ls) = ArePlainListings ls

  pub ArePlain : Dictionaries → Type 0
  ArePlain (last_dict d) = IsPlain d
  ArePlain (more_dicts d ds) = IsPlain d × ArePlain ds

  pub ArePlainListings : Listings → Type 0
  ArePlainListings (last_list l) = IsPlainListing l
  ArePlainListings (more_lists l ls) = IsPlainListing l × ArePlainListings ls
