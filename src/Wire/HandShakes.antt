-- ===== src/Wire/HandShakes.antt =====
-- The handshake of core/torrent_message.go read back.
use dawn_torrent.Base.{
  ◌<◌, ◌≡◌, ap, sym, ◌∙◌, [], ◌∷◌, ◌++◌, Bytes, ok, err, could_not_parse, length, take, drop,
  replicate, length-append, take-append_length, drop-append_length, take_all, arith,
}
use dawn_torrent.Wire.{new_handshake_msg, parse_handshake, bittorrent_identifier, handshake_len}

module _ (hash id : Bytes) (hash_size : length hash ≡ 20) (id_size : length id ≡ 20) where
  hash_part : take 20 (hash ++ id) ≡ hash
  hash_part = ap (λ n. take n (hash ++ id)) (sym hash_size) ∙ take-append_length hash id

  id_part : take 20 (drop 20 (hash ++ id)) ≡ id
  id_part =
      ap (λ n. take 20 (drop n (hash ++ id))) (sym hash_size)
      ∙ ap (take 20) (drop-append_length hash id)
      ∙ take_all id 20 (omega arith)

  -- A handshake with a 20-byte info hash and a 20-byte id is parsed into the same hash and id, with
  -- the protocol's name and eight reserved zeros.
  pub parse_handshake-new_handshake_msg :
      parse_handshake (new_handshake_msg hash id)
      ≡ ok (record {
        pstrlen = 19 ∷ [];
        pstr = bittorrent_identifier;
        info_hash = hash;
        reserved_bytes = replicate 8 0;
        peer_id = id;
      })
  unfolding parse_handshake new_handshake_msg
  parse_handshake-new_handshake_msg = ground (arith, hash_part, id_part, length-append hash id)

-- Fewer than 68 bytes are refused with an error value, never with a panic.
pub parse_handshake_short :
    (raw : Bytes) → length raw < handshake_len → parse_handshake raw ≡ err could_not_parse
unfolding parse_handshake
parse_handshake_short raw h = ground arith
