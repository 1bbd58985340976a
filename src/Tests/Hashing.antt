-- ===== src/Tests/Hashing.antt =====
-- The info hash of a torrent file.
use dawn_torrent.Base.{◌≡◌, refl, inl, inr, [], ◌∷◌, Bytes, length, equal_bytes, arith}
use dawn_torrent.Base.Decimal.{format_uint, atoi}
use dawn_torrent.Bencode.Parsing.{returned, ◌>>=◌}
use dawn_torrent.Bencode.Documents.{text, number, dict, Dictionary, one, more, encode, IsPlain}
use dawn_torrent.Bencode.Parser.{unmarshall_from_array}
use dawn_torrent.TorrentFile.{announce, info, length_key, name, get_info_hash}
use dawn_torrent.TorrentFile.InfoHash.{get_info_hash-encode}

abbrev info_dict : Dictionary
info_dict = more length_key (number 9) (one name (text (b'n' ∷ [])))

abbrev torrent_file : Dictionary
torrent_file =
    more announce (text (b'u' ∷ [])) (more info (dict info_dict) (one (b'z' ∷ []) (text [])))

torrent_file-IsPlain : IsPlain torrent_file
unfolding atoi equal_bytes
torrent_file-IsPlain = (refl, (refl, refl), ((omega arith, refl, refl), refl, refl))

torrent_file_is_short : length (encode torrent_file) ≡ 48
unfolding format_uint
torrent_file_is_short = refl

-- A hash that shows what it is of.
abbrev hash : Bytes → Bytes
hash bytes = 171 ∷ bytes

get_info_hash-encode_example :
    (unmarshall_from_array 200 (encode torrent_file) >>= get_info_hash hash)
    ≡ returned (171 ∷ encode info_dict)
get_info_hash-encode_example =
    get_info_hash-encode hash torrent_file info_dict 200 torrent_file-IsPlain
      (omega (arith, torrent_file_is_short)) (omega (arith, torrent_file_is_short))
      (inr (inl (refl, refl)))
