-- ===== src/Tracker/Udp.antt =====
-- core/tracker/udp_msg_parser.go: the datagrams of the UDP tracker protocol.
-- An `int` is the 64-bit pattern of its two's complement, so that -1 is 2 ^ 64 - 1.
pub mod Layout
use dawn_torrent.Base.{
  ℕ, ◌+◌, ◌-◌, List, [], ◌++◌, Bytes, Result, ok, ◌>>=◌, slice, uint64, read_uint32, leb,
  if◌then◌else◌,
}
use dawn_torrent.Utils.{int_to_byte}

abbrev pub udp_protocol_id : ℕ
udp_protocol_id = 0x41727101980

abbrev pub udp_connect_request : ℕ
udp_connect_request = 0

abbrev pub udp_announce_request : ℕ
udp_announce_request = 1

pub record BaseUdpMsg : Type 0 where
  pub action : ℕ
  pub connection_id : ℕ
  pub transaction_id : ℕ

pub record AnnounceUdpMsg : Type 0 where
  pub base : BaseUdpMsg
  pub infohash : Bytes
  pub peer_id : Bytes
  pub downloaded : ℕ
  pub uploaded : ℕ
  pub left : ℕ
  pub event : ℕ
  pub key : ℕ
  pub num_want : ℕ
  pub port : ℕ
  pub ip : ℕ

pub record AnnounceResponseUdpMsg : Type 0 where
  pub base : BaseUdpMsg
  pub interval : ℕ
  pub n_leechers : ℕ
  pub n_seeders : ℕ
  pub peers_addresses : Bytes

unfoldable pub new_udp_connection_request : ℕ → Result Bytes
unfolding int_to_byte
new_udp_connection_request transaction_id = do
  protocol ← int_to_byte udp_protocol_id 8
  action ← int_to_byte udp_connect_request 4
  transaction ← int_to_byte transaction_id 4
  ok (protocol ++ action ++ transaction)

unfoldable pub new_udp_announce_request : AnnounceUdpMsg → Result Bytes
unfolding int_to_byte
new_udp_announce_request msg = do
  connection ← int_to_byte msg.base.connection_id 8
  action ← int_to_byte msg.base.action 4
  transaction ← int_to_byte msg.base.transaction_id 4
  downloaded ← int_to_byte msg.downloaded 8
  left ← int_to_byte msg.left 8
  uploaded ← int_to_byte msg.uploaded 8
  event ← int_to_byte msg.event 4
  ip ← int_to_byte msg.ip 4
  key ← int_to_byte msg.key 4
  num_want ← int_to_byte msg.num_want 4
  port ← int_to_byte msg.port 2
  ok (
      connection
      ++ (action
          ++ (transaction
              ++ (msg.infohash
                  ++ (msg.peer_id
                      ++ (downloaded
                          ++ (left
                              ++ (uploaded ++ (event ++ (ip ++ (key ++ (num_want ++ port))))))))))))

unfoldable pub parse_udp_connection_response : Bytes → Result BaseUdpMsg
parse_udp_connection_response msg = do
  action ← read_uint32 msg 0
  transaction ← read_uint32 msg 4
  connection_bytes ← slice msg 8 16
  connection ← uint64 connection_bytes
  ok (record { action = action; connection_id = connection; transaction_id = transaction })

-- `msg` is the whole receive buffer, and `msg_size` counts the bytes that were read into it.
unfoldable pub parse_announce_response : Bytes → ℕ → Result AnnounceResponseUdpMsg
parse_announce_response msg msg_size = do
  action ← read_uint32 msg 0
  transaction ← read_uint32 msg 4
  interval ← read_uint32 msg 8
  leechers ← read_uint32 msg 12
  seeders ← read_uint32 msg 16
  addresses ← (if leb 26 msg_size then slice msg 26 msg_size else ok [])
  ok (record {
    base = record { action = action; connection_id = 0; transaction_id = transaction };
    interval = interval;
    n_leechers = leechers;
    n_seeders = seeders;
    peers_addresses = addresses;
  })
