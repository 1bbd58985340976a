-- ===== src/Tests/Codec.antt =====
-- Bits, handshakes, messages and datagrams.
use dawn_torrent.Base.{
  ℕ, ◌-◌, ◌^◌, ◌≡◌, refl, true, [], ◌∷◌, ◌++◌, Bytes, Option, some, ok, err, could_not_parse,
  replicate, put_uint32, put_uint64, arith,
}
use dawn_torrent.Base.Int.{pos}
use dawn_torrent.Wire.{Header, parse_handshake}
use dawn_torrent.Wire.HandShakes.{parse_handshake_short}
use dawn_torrent.Wire.Parser.{parse_msg}
use dawn_torrent.Wire.Parser.Totality.{panics, panics-parse_msg}
use dawn_torrent.Tracker.Udp.{
  AnnounceUdpMsg, new_udp_connection_request, udp_protocol_id, new_udp_announce_request,
}
use dawn_torrent.Tracker.Udp.Layout.{
  HasLayout, new_udp_connection_request-eq, new_udp_announce_request_layout,
}

abbrev hash : Bytes
hash = replicate 20 7

abbrev id : Bytes
id = replicate 20 9

parse_handshake_short_example : parse_handshake (19 ∷ 66 ∷ []) ≡ err could_not_parse
parse_handshake_short_example = parse_handshake_short (19 ∷ 66 ∷ []) (omega arith)

abbrev from_peer : Option ℕ
from_peer = some 3

panics-parse_msg_example : panics (parse_msg (put_uint32 3 ++ (4 ∷ 0 ∷ 0 ∷ [])) from_peer) ≡ true
panics-parse_msg_example = panics-parse_msg 4 (0 ∷ 0 ∷ []) from_peer (omega arith)

abbrev head : Header
head = record { id = pos 6; length = 13; peer = from_peer }

new_udp_connection_request-eq_example :
    new_udp_connection_request 77
    ≡ ok (put_uint64 udp_protocol_id ++ (put_uint32 0 ++ put_uint32 77))
new_udp_connection_request-eq_example = new_udp_connection_request-eq 77

abbrev announce : AnnounceUdpMsg
announce = record {
  base = record { action = 1; connection_id = 123456; transaction_id = 77 };
  infohash = hash;
  peer_id = id;
  downloaded = 100;
  uploaded = 5;
  left = 900;
  event = 2;
  key = 0;
  num_want = 2 ^ 64 - 1;
  port = 6881;
  ip = 0;
}

new_udp_announce_request_layout_example :
    (bytes : Bytes) × (new_udp_announce_request announce ≡ ok bytes) × HasLayout announce bytes
new_udp_announce_request_layout_example = new_udp_announce_request_layout announce refl refl

abbrev first_address : Bytes
first_address = 1 ∷ 2 ∷ 3 ∷ 4 ∷ 26 ∷ 225 ∷ []

abbrev second_address : Bytes
second_address = 5 ∷ 6 ∷ 7 ∷ 8 ∷ 26 ∷ 226 ∷ []
