-- ===== src/Tests/Bencoding.antt =====
-- Bencoded documents, and files that the parser does not read as they are meant.
use dawn_torrent.Base.{◌≡◌, refl, [], ◌∷◌, ◌++◌, Bytes, length, equal_bytes, arith}
use dawn_torrent.Base.Decimal.{format_uint, atoi}
use dawn_torrent.Bencode.Parsing.{returned, out_of_fuel, ◌>>=◌}
use dawn_torrent.Bencode.{sized, to_bencode}
use dawn_torrent.Bencode.Documents.{
  text, number, dict, list, Dictionary, one, more, one_text, dicts, lists, last_dict, more_dicts,
  last_list, encode, IsPlain,
}
use dawn_torrent.Bencode.Parser.{unmarshall_from_array}
use dawn_torrent.Bencode.RoundTrip.{unmarshall_from_array-encode}
use dawn_torrent.Bencode.Malformed.{unmarshall_from_array_hangs}

-- An announce URL, a list of lists of URLs, and two files.
abbrev sample : Dictionary
sample = more (b'a' ∷ []) (text (b'u' ∷ b'd' ∷ b'p' ∷ [])) (
    more (b'l' ∷ []) (list (lists (last_list (one_text (b'x' ∷ []))))) (
      one (b'i' ∷ []) (
        dict (
          more (b'f' ∷ [])
            (list (
              dicts (
                more_dicts (one (b'n' ∷ []) (number 7))
                  (last_dict (one (b'n' ∷ []) (number 1024))))))
            (one (b'p' ∷ []) (text []))))))

sample-IsPlain : IsPlain sample
unfolding atoi equal_bytes
sample-IsPlain = (refl, (refl, refl), (tt, refl, ((omega arith, omega arith), refl, refl)))

sample_is_short : length (encode sample) ≡ 54
unfolding format_uint
sample_is_short = refl

unmarshall_from_array-encode_example :
    (unmarshall_from_array 200 (encode sample) >>= to_bencode) ≡ returned (encode sample)
unmarshall_from_array-encode_example =
    unmarshall_from_array-encode sample 200 sample-IsPlain (omega (arith, sample_is_short))
      (omega (arith, sample_is_short))

unmarshall_from_array_hangs_example :
    unmarshall_from_array 1000 (b'l' ∷ b'i' ∷ b'5' ∷ b'l' ∷ b'0' ∷ b':' ∷ b'e' ∷ b'e' ∷ [])
    ≡ out_of_fuel
unmarshall_from_array_hangs_example = unmarshall_from_array_hangs 1000 (b'e' ∷ [])

abbrev two_texts : Bytes
two_texts = b'l' ∷ b'1' ∷ b':' ∷ b'x' ∷ b'1' ∷ b':' ∷ b'y' ∷ b'e' ∷ []

two_texts_encoded : two_texts ≡ b'l' ∷ (sized (b'x' ∷ []) ++ (sized (b'y' ∷ []) ++ (b'e' ∷ [])))
unfolding format_uint
two_texts_encoded = refl
