-- ===== src/Bencode/RoundTrip.antt =====
-- parser/bencode_parser.go: `UnmarshallFromArray` followed by `ToBencode`.
use dawn_torrent.Base.{ℕ, ◌*◌, ◌^◌, [], ◌<◌, ◌≤◌, ◌≡◌, ◌∙◌, sym, length, arith}
use mathlib.Core.List.{append-nil}
use dawn_torrent.Bencode.Parsing.{returned, ◌>>=◌}
use dawn_torrent.Bencode.{new_bmap, to_bencode}
use dawn_torrent.Bencode.Documents.{Dictionary, encode, IsPlain}
use dawn_torrent.Bencode.Parser.{unmarshall_from_array}
use dawn_torrent.Bencode.Printing.{to_bencode-set_key_info}
use dawn_torrent.Bencode.Reading.{reads_dict}

-- A dictionary without empty containers, whose lists hold one text, dictionaries only or lists
-- only, whose keys differ, whose numbers fit an int and whose texts do not read as numbers, is
-- parsed from its encoding of less than 2 ^ 63 bytes with fuel for twice its bytes, and printing
-- the parsed map gives the encoding back.
pub unmarshall_from_array-encode :
    (d : Dictionary) (fuel : ℕ)
    → IsPlain d
    → length (encode d) < 2 ^ 63
    → 2 * length (encode d) ≤ fuel
    → (unmarshall_from_array fuel (encode d) >>= to_bencode) ≡ returned (encode d)
unfolding unmarshall_from_array
unmarshall_from_array-encode d fuel plain bound enough =
    let (m, runs, shows) =
      reads_dict (encode d) bound d fuel 0 new_bmap [] plain (omega (arith, enough))
        (sym (append-nil (encode d))) in
    rw runs (to_bencode-set_key_info _ m ∙ shows)
