-- ===== src/TorrentFile/InfoHash.antt =====
-- core/torrent.go: `GetInfoHash` on a parsed document takes the bytes of its info dictionary.
use dawn_torrent.Base.{
  ℕ, zero, suc, ◌+◌, ◌-◌, ◌*◌, ◌^◌, ◌<◌, ◌≤◌, ◌≡◌, refl, sym, ap, ◌∙◌, [], ◌++◌, Bytes, length,
  length-append, length-drop, true, take, drop, take-append_length, leb, arith,
}
use mathlib.Core.List.{append-nil}
use dawn_torrent.Bencode.Parsing.{returned, ◌>>=◌}
use dawn_torrent.Bencode.{ContainerInformation, BMap, bmap, new_bmap, to_bencode}
use dawn_torrent.Bencode.Documents.{dict, Dictionary, encode, encode_entries, IsPlain}
use dawn_torrent.Bencode.Parser.{set_key_info, unmarshall_from_array, origin}
use dawn_torrent.Bencode.Loops.{AreFresh-empty, container_bytes}
use dawn_torrent.Bencode.Steps.{parse_dict}
use dawn_torrent.Bencode.RoundTrip.{unmarshall_from_array-encode}
use dawn_torrent.TorrentFile.{map_at, between, info, get_info_hash}
use dawn_torrent.TorrentFile.Placing.{HasEntry, PlacedAt, PlacedAt-keeps, dict_loop-Located}

-- What the parser returns for the encoding of a document, with the place of a dictionary.
record Opened (d : Dictionary) (fuel : ℕ) (j : Bytes) (i : Dictionary) : Type 0 where
  map : BMap
  returns : unmarshall_from_array fuel (encode d) ≡ returned map
  prints : to_bencode map ≡ returned (encode d)
  placed : PlacedAt (encode d) j i map

set_key_info-map_at :
    (j : Bytes) (x : ContainerInformation) (m : BMap) → map_at j (set_key_info x m) ≡ map_at j m
unfolding map_at
set_key_info-map_at j x (bmap infos strings maps lists key_info) = refl

opens :
    (d i : Dictionary) (fuel : ℕ) (j : Bytes)
    → IsPlain d
    → length (encode d) < 2 ^ 63
    → 2 * length (encode d) ≤ fuel
    → HasEntry j (dict i) d
    → Opened d fuel j i
unfolding unmarshall_from_array
opens d i zero j plain bound enough entry = absurd (omega (arith, enough))
opens d i (suc zero) j plain bound enough entry =
    absurd (omega (arith, enough, container_bytes (encode_entries d)))
opens d i (suc (suc fuel)) j plain bound enough entry =
    let file = encode d in
    let whole : drop 0 file ≡ encode d ++ [] = sym (append-nil (encode d)) in
    let (m0, parses, none_yet, nothing) = parse_dict fuel new_bmap file 0 _ whole in
    let t =
      dict_loop-Located file bound d fuel 1 m0 [] [] plain
        (omega (arith, enough, container_bytes (encode_entries d))) (AreFresh-empty d m0 none_yet)
        nothing refl in
    let map = set_key_info (origin (1 + length (encode_entries d))) t.after in
    let runs : unmarshall_from_array (suc (suc fuel)) file ≡ returned map =
      rw (unmarshall_from_array, parses t.after _ t.runs) refl in
    record {
      map = map;
      returns = runs;
      prints =
          ap (λ r. r >>= to_bencode) (sym runs)
          ∙ unmarshall_from_array-encode d (suc (suc fuel)) plain bound enough;
      placed =
          PlacedAt-keeps file j i t.after map (set_key_info-map_at j _ t.after)
            (t.places j i entry);
    }

between_there :
    (file xs ys : Bytes) (from to : ℕ)
    → to ≡ from + length xs
    → drop from file ≡ xs ++ ys
    → 1 ≤ length xs
    → between file from to ≡ returned xs
between_there file xs ys from to ends there some_byte =
    let rest = length-drop from file in
    let size = length-append xs ys in
    let same = ap length there in
    let low : leb from to ≡ true = ground (arith, ends) in
    let high : leb to (length file) ≡ true = ground (arith, ends, rest, size, same) in
    let taken : take (to - from) (drop from file) ≡ xs =
      ap (λ n. take n (drop from file)) {y = length xs} (omega (arith, ends))
      ∙ ap (take (length xs)) there
      ∙ take-append_length xs ys in
    rw (low, high) (ap returned taken)

-- A document is one that the parser reads and prints whole, of less than 2 ^ 63 bytes, parsed with
-- fuel for twice its bytes. Where its key "info" holds a dictionary, wherever that entry stands, the
-- parsed map's info hash is the hash of this dictionary's encoding.
pub get_info_hash-encode :
    (sha1 : Bytes → Bytes) (d i : Dictionary) (fuel : ℕ)
    → IsPlain d
    → length (encode d) < 2 ^ 63
    → 2 * length (encode d) ≤ fuel
    → HasEntry info (dict i) d
    → (unmarshall_from_array fuel (encode d) >>= get_info_hash sha1) ≡ returned (sha1 (encode i))
unfolding get_info_hash
get_info_hash-encode sha1 d i fuel plain bound enough entry =
    let o = opens d i fuel info plain bound enough entry in
    let x = o.placed in
    let from = x.position.inner_starting_position in
    let cut : between (encode d) from x.position.ending_position ≡ returned (encode i) =
      between_there (encode d) (encode i) x.rest from x.position.ending_position x.ends x.there
        (omega arith) in
    rw (o.returns, x.found, x.known, o.prints, cut) refl
