-- ===== src/Swarm/Upkeep.antt =====
-- core/peer_manager.go and core/peer_operation.go: the new peer manager, its server, the messages to
-- peers that have nothing of interest, and the message for the user interface.
use dawn_torrent.Base.{
  ℕ, Bool, false, ◌&&◌, List, [], ◌∷◌, ◌++◌, Bytes, Option, none, some, Result, ok, err, panic,
  ◌>>=◌, get_elem?, set, ◌==◌, if◌then◌else◌,
}
use dawn_torrent.Base.Int.{ℤ, pos}
use dawn_torrent.Wire.{marshal, interested, uninterested_msg_id, default_msg_len}
use dawn_torrent.Torrent.{int32}
use dawn_torrent.Peer.{Peer}
use dawn_torrent.Swarm.{Swarm, Remote, connect, handle_connection_request}

unfoldable pub new_peer_manager : Bytes → Swarm
new_peer_manager info_hash = record {
  peers = [];
  active_peers = [];
  n_active_connection = 0;
  info_hash = info_hash;
}

-- The peers that `updateInterest` wants to tell that it is not interested in them.
abbrev pub is_boring : Peer → Bool
is_boring peer = (peer.interest_point == 0) && peer.is_interesting

-- The messages that were sent, each with its peer, and the peers.
abbrev pub Sending : Type 0
Sending = Result (List (ℕ × Bytes) × List Peer)

-- `SendMsg`; a nil connection panics. A failed write is logged, and the peer stays as it is.
send_notice : Bool → ℕ → Peer → List Peer → Option ℕ → Bytes → Sending
send_notice fails i peer peers none bytes = panic
send_notice fails i peer peers (some socket) bytes =
    if fails
    then ok ([], peers)
    else ok ((i, bytes) ∷ [], set peers i (record peer { is_interesting = false }))

-- One round of the `Range` in `updateInterest`.
notify_peer : Bool → ℕ → List Peer → Option Peer → Sending
unfolding send_notice marshal
notify_peer fails i peers none = ok ([], peers)
notify_peer fails i peers (some peer) =
    let sent : Sending =
      marshal (
        interested (record { id = pos uninterested_msg_id; length = default_msg_len; peer = none }))
      >>= send_notice fails i peer peers peer.connection in
    if is_boring peer then sent else ok ([], peers)

interest_loop : (ℕ → Bool) → List (Bytes × ℕ) → List Peer → Sending
unfolding notify_peer
interest_loop fails [] peers = ok ([], peers)
interest_loop fails ((id, i) ∷ rest) peers = do
  first ← notify_peer (fails i) i peers (get_elem? peers i)
  later ← interest_loop fails rest first.1
  ok (first.0 ++ later.0, later.1)

-- `fails` says at which peers the write fails.
unfoldable pub update_interest : (ℕ → Bool) → Swarm → Sending
unfolding interest_loop
update_interest fails m = interest_loop fails m.active_peers m.peers

-- rpc/torrent_state: `Peer` without its two rates, which are always 0, and `PeerSwarm`.
pub record PeerState : Type 0 where
  pub ip : Bytes
  pub id : Bytes

pub record SwarmState : Type 0 where
  pub n_connected_peer : ℤ
  pub peers : List PeerState

states_of : List Peer → List (Bytes × ℕ) → List PeerState
states_of peers [] = []
states_of peers ((id, i) ∷ rest) =
    let later = states_of peers rest in
    elim (get_elem? peers i) [
      | none ↦ later
      | some peer ↦ record { ip = peer.ip; id = peer.id } ∷ later
    ]

unfoldable pub serialize : Swarm → SwarmState
unfolding states_of int32
serialize m = record {
  n_connected_peer = int32 m.n_active_connection;
  peers = states_of m.peers m.active_peers;
}

-- The types with an `Execute`, without those of the server.
pub data Operation : Type 0 where
  drop_peer : ℕ → Operation
  incoming_peer_connection : Bytes → Bytes → Remote → Operation
  connect_peer : ℕ → Remote → Operation

-- `DropPeer` has no statement. `connect` sets the connection of the peer that the pointer names.
unfoldable pub execute : Operation → Swarm → Result Swarm
unfolding handle_connection_request connect
execute (drop_peer i) m = ok m
execute (incoming_peer_connection ip port remote) m = handle_connection_request ip port remote m
execute (connect_peer i remote) m = elim (get_elem? m.peers i) [
  | none ↦ panic
  | some peer ↦ elim (connect m.info_hash remote peer) [
    | ok peer' ↦ ok (record m { peers = set m.peers i peer' })
    | err e ↦ ok m
    | panic ↦ panic
  ]
]

-- The loop of `startServer` on what `AcceptTCP` gives, a connection or an error: the address of the
-- nil connection is asked for before the error is tested. The operations go into a channel.
unfoldable pub accept_loop : List (Option (Bytes × Bytes × Remote)) → Result (List Operation)
accept_loop [] = ok []
accept_loop (none ∷ rest) = panic
accept_loop (some (ip, port, remote) ∷ rest) =
    accept_loop rest >>= λ later. ok (incoming_peer_connection ip port remote ∷ later)
