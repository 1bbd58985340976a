-- ===== src/Bencode/Field/Pairs.antt =====
-- parser/bencode_parser.go: `getField` at an entry of a dictionary and at an element of a list.
use dawn_torrent.Base.{ℕ, ◌+◌, ◌^◌, ◌<◌, ◌≡◌, ◌⊎◌, refl, [], ◌∷◌, ◌++◌, Bytes, length, drop}
use dawn_torrent.Base.Decimal.{format_uint}
use dawn_torrent.Bencode.Parsing.{returned}
use dawn_torrent.Bencode.{sized}
use dawn_torrent.Bencode.Field.{Fields, read_one, get_field}
use dawn_torrent.Bencode.Field.Elements.{behind, read_one_text, read_one_number, read_one_end}

-- Two rounds, the second from where the first one ends.
two_rounds :
    (file : Bytes) (p : ℕ) (f g : Fields)
    → read_one file (record { seq = []; position = p; field = 0 }) ≡ returned f
    → read_one file f ≡ returned g
    → get_field file p ≡ returned g
unfolding get_field
two_rounds file p f g first second = rw first second

module _ (file : Bytes) (bound : length file < 2 ^ 63) (p : ℕ) where
  pub get_field_texts :
      (k s rest : Bytes)
      → drop p file ≡ sized k ++ (sized s ++ rest)
      → get_field file p
        ≡ returned (record {
          seq = k ∷ s ∷ [];
          position = p + length (sized k) + length (sized s);
          field = 0;
        })
  get_field_texts k s rest h =
      two_rounds file p _ _ (read_one_text file bound [] p 0 k (sized s ++ rest) h) (
        read_one_text file bound (k ∷ []) (p + length (sized k)) 0 s rest
          (behind file p _ (sized k) _ h refl))

  pub get_field_number :
      (k : Bytes) (n : ℕ) (rest : Bytes)
      → n < 2 ^ 63
      → drop p file ≡ sized k ++ (b'i' ∷ (format_uint n ++ (b'e' ∷ rest)))
      → get_field file p
        ≡ returned (record {
          seq = k ∷ format_uint n ∷ [];
          position = p + length (sized k) + 2 + length (format_uint n);
          field = b'e';
        })
  get_field_number k n rest small h =
      two_rounds file p _ _ (read_one_text file bound [] p 0 k _ h) (
        read_one_number file bound (k ∷ []) (p + length (sized k)) 0 n rest small
          (behind file p _ (sized k) _ h refl))

  -- A key in front of a container, and a text in front of the end of its list.
  pub get_field_end :
      (k : Bytes) (c : ℕ) (rest : Bytes)
      → (c ≡ b'd') ⊎ (c ≡ b'l') ⊎ (c ≡ b'e')
      → drop p file ≡ sized k ++ (c ∷ rest)
      → get_field file p
        ≡ returned (record { seq = k ∷ []; position = p + length (sized k); field = c })
  get_field_end k c rest is h = two_rounds file p _ _ (read_one_text file bound [] p 0 k _ h) (
      read_one_end file bound (k ∷ []) (p + length (sized k)) 0 c rest is
        (behind file p _ (sized k) _ h refl))

  pub get_field_container :
      (c : ℕ) (rest : Bytes)
      → (c ≡ b'd') ⊎ (c ≡ b'l') ⊎ (c ≡ b'e')
      → drop p file ≡ c ∷ rest
      → get_field file p ≡ returned (record { seq = []; position = p; field = c })
  get_field_container c rest is h =
      two_rounds file p _ _ (read_one_end file bound [] p 0 c rest is h)
        (read_one_end file bound [] p c c rest is h)
