-- ===== src/Swarm.antt =====
-- core/peer_manager.go: the connected peers, and the streams of messages from them.
-- A `*Peer` is an index into the list of all peers. What the network does is a parameter: `Remote`.
pub mod Streams
pub mod Blocks
pub mod Selection
pub mod Addresses
pub mod Upkeep
use dawn_torrent.Base.{
  ℕ, zero, suc, ◌+◌, ◌-◌, Bool, true, false, not, List, [], ◌∷◌, ◌++◌, Bytes, Option, none, some,
  Result, ok, err, panic, ◌>>=◌, io_failed, length, take, drop, get_elem?, set, ltb, if◌then◌else◌,
  slice, uint32, equal_bytes, map,
}
use dawn_torrent.Base.Int.{ℤ, suc_ℤ, pred_ℤ}
use dawn_torrent.Wire.{TorrentMsg, HandShake, new_handshake_msg, parse_handshake}
use dawn_torrent.Wire.Parser.{parse_msg}
use dawn_torrent.Peer.{Peer, is_available, set_connection, new_peer, new_peer_from_bytes}

-- Why a stream ended: the length or the payload could not be read whole, or the program ended by a
-- panic or by `log.Fatal`. `out_of_fuel` is no outcome of the program.
pub data StreamEnd : Type 0 where
  no_length no_payload crashed out_of_fuel : StreamEnd

-- `HandleMsgStream` on the bytes that the connection delivers before it fails or ends. Each round
-- reads four bytes at least.
unfoldable pub handle_msg_stream : ℕ → Bytes → Option ℕ → List TorrentMsg × StreamEnd
handle_msg_stream zero raw peer = ([], out_of_fuel)
handle_msg_stream (suc fuel) raw peer =
    let msg_len_buffer = take 4 raw in
    let rest = drop 4 raw in
    elim (uint32 msg_len_buffer) [
      | ok msg_len ↦
          let later = handle_msg_stream fuel (drop msg_len rest) peer in
          let routed : List TorrentMsg × StreamEnd =
            elim (parse_msg (msg_len_buffer ++ take msg_len rest) peer) [
              | ok msg ↦ (msg ∷ later.0, later.1)
              | err e ↦ ([], crashed)
              | panic ↦ ([], crashed)
            ] in
          if ltb (length rest) msg_len then ([], no_payload) else routed
      | err e ↦ ([], no_length)
      | panic ↦ ([], no_length)
    ]

-- `active_peers` is the map's content in the order in which `Range` visits it.
pub record Swarm : Type 0 where
  pub peers : List Peer
  pub active_peers : List (Bytes × ℕ)
  pub n_active_connection : ℕ
  pub info_hash : Bytes

-- The `Range` of `GetAvailablePeer`: the first peer that is available for the piece is taken, and
-- counts one piece more. `none` is where the loop waits for an alert and ranges again.
unfoldable pub select_peer : List (Bytes × ℕ) → ℕ → List Peer → Option (ℕ × List Peer)
select_peer [] piece_index peers = none
select_peer ((id, i) ∷ rest) piece_index peers =
    let later = select_peer rest piece_index peers in
    elim (get_elem? peers i) [
      | none ↦ later
      | some peer ↦
          if is_available peer piece_index
          then some (i, set peers i (record peer { is_free = suc_ℤ peer.is_free }))
          else later
    ]

-- `atomic.AddInt64(&peer.IsFree, -1)`, when a worker has its piece (core/downloader.go).
unfoldable pub release_peer : ℕ → List Peer → List Peer
release_peer i peers = elim (get_elem? peers i) [
  | none ↦ peers
  | some peer ↦ set peers i (record peer { is_free = pred_ℤ peer.is_free })
]

-- What the other side and the operating system do in one connection attempt.
pub record Remote : Type 0 where
  pub dial_fails : Bool
  pub write_fails : Bool
  pub reply : Bytes
  pub close_fails : Bool
  pub socket : ℕ

-- `connect`: an error value, the end of the program, or the peer with its connection.
unfoldable pub connect : Bytes → Remote → Peer → Result Peer
connect info_hash remote peer =
    let answered : Result Peer =
      (parse_handshake (take 68 remote.reply) >>= λ handshake.
      if not (equal_bytes handshake.info_hash info_hash)
      then (if remote.close_fails then err io_failed else panic)
      else ok (set_connection peer remote.socket)) in
    if remote.dial_fails
    then err io_failed
    else if remote.write_fails
    then panic
    else if ltb (length remote.reply) 68
    then err io_failed
    else answered

-- `sync.Map.Store`.
store : Bytes → ℕ → List (Bytes × ℕ) → List (Bytes × ℕ)
store id i [] = (id, i) ∷ []
store id i ((k, j) ∷ rest) = if equal_bytes k id then (id, i) ∷ rest else (k, j) ∷ store id i rest

-- The goroutine of `AddNewPeer` up to its message stream, for the peer at an index.
activate : Peer → ℕ → Swarm → Swarm
unfolding store
activate peer i m = record m {
  peers = set m.peers i peer;
  active_peers = store peer.id i m.active_peers;
  n_active_connection = m.n_active_connection + 1;
}

connected : Peer → ℕ → Remote → Swarm → Option ℕ → Result Swarm
unfolding activate connect
connected peer i remote m (some socket) = ok (activate peer i m)
connected peer i remote m none = elim (connect m.info_hash remote peer) [
  | ok peer' ↦ ok (activate peer' i m)
  | err e ↦ ok m
  | panic ↦ panic
]

unfoldable pub add_new_peer : ℕ → Remote → Swarm → Result Swarm
unfolding connected
add_new_peer i remote m = elim (get_elem? m.peers i) [
  | none ↦ ok m
  | some peer ↦ connected peer i remote m peer.connection
]

-- `handleConnectionRequest`: the new peer is appended to all peers.
unfoldable pub handle_connection_request : Bytes → Bytes → Remote → Swarm → Result Swarm
unfolding add_new_peer
handle_connection_request ip port remote m =
    let accepted = λ (h : HandShake).
      let peer = set_connection (new_peer ip port h.peer_id) remote.socket in
      add_new_peer (length m.peers) remote (record m { peers = m.peers ++ (peer ∷ []) }) in
    let parsed : Result Swarm = parse_handshake (take 68 remote.reply) >>= λ h.
    (if remote.write_fails then ok m else accepted h) in
    if ltb (length remote.reply) 68 then panic else parsed

-- The loop of `CreatePeersFromUDPTracker`, on the addresses from `i` on. A partial address at the end is
-- taken to panic; a slice of Go would reach beyond the length into the capacity.
addresses_loop : ℕ → Bytes → Result (List Peer)
addresses_loop zero bytes = ok []
addresses_loop (suc fuel) [] = ok []
addresses_loop (suc fuel) (b ∷ bs) = do
  six ← slice (b ∷ bs) 0 6
  peer ← new_peer_from_bytes six
  peers ← addresses_loop fuel (drop 6 (b ∷ bs))
  ok (peer ∷ peers)

-- Each round takes six bytes, so that the length is fuel enough.
unfoldable pub create_peers_from_udp_tracker : Bytes → Result (List Peer)
unfolding addresses_loop
create_peers_from_udp_tracker bytes = addresses_loop (length bytes) bytes

-- What a tracker's dictionary says of a peer.
pub record PeerDict : Type 0 where
  pub ip : Bytes
  pub port : Bytes
  pub peer_id : Bytes

unfoldable pub create_peers_from_http_tracker : List PeerDict → List Peer
create_peers_from_http_tracker = map (λ d. new_peer d.ip d.port d.peer_id)
