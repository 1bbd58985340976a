-- ===== src/Tracker/Requests.antt =====
-- core/tracker/scrape_strategy.go: the requests of the two strategies.
-- The network enters as the rounds of a loop, each with the transaction id that is drawn for it, the
-- outcome of the write, what the read comes to and the times that pass. The clock never goes back. A
-- list of rounds that is empty ends a loop as its deadline does; the result never depends on more
-- than one round. The datagrams that were written are kept. `log.Fatal` ends the process.
pub mod Exchanges
pub mod Http
use dawn_torrent.Base.{
  ℕ, ◌+◌, ◌*◌, ◌-◌, ◌^◌, ltb, Bool, List, [], ◌∷◌, ◌++◌, Bytes, Result, ok, err, panic, ◌>>=◌,
  deadline_exceeded, length, take, replicate, if◌then◌else◌,
}
use dawn_torrent.Peer.{Peer}
use dawn_torrent.Swarm.{create_peers_from_udp_tracker}
use dawn_torrent.Tracker.Udp.{
  BaseUdpMsg, AnnounceUdpMsg, AnnounceResponseUdpMsg, udp_announce_request,
  new_udp_connection_request, new_udp_announce_request, parse_udp_connection_response,
  parse_announce_response,
}

-- What a read with a deadline comes to: the deadline's error, another error, or a datagram.
pub data Answer : Type 0 where
  timed_out failed : Answer
  received : Bytes → Answer

-- What a round meets: the time from the test of the loop to the call of `SetReadDeadline`, and, where
-- the read times out, the time from its deadline to the next test.
pub record Attempt : Type 0 where
  pub transaction_id : ℕ
  pub write_fails : Bool
  pub answer : Answer
  pub delay : ℕ
  pub late : ℕ

-- In nanoseconds, as `UnixNano` counts.
abbrev pub second : ℕ
second = 1000000000

-- `udpTryOutDeadline`.
abbrev pub udp_try_out_deadline : ℕ
udp_try_out_deadline = 15 * second

-- How long the reads of the two loops wait.
abbrev pub connect_read_timeout : ℕ
connect_read_timeout = 15 * second

abbrev pub announce_read_timeout : ℕ
announce_read_timeout = 20 * second

-- The time of the next test behind a read that has timed out.
abbrev pub next_test : ℕ → ℕ → Attempt → ℕ
next_test timeout now x = now + x.delay + timeout + x.late

-- A buffer of a size behind the bytes that were read into it.
abbrev pub read_into : ℕ → Bytes → Bytes
read_into size datagram = take size datagram ++ replicate (size - length (take size datagram)) 0

abbrev pub max_packet_size : ℕ
max_packet_size = 65535

-- A round of the loop of `sendConnectRequest`, with what comes of the rounds behind it.
abbrev pub connect_round :
    Bytes → ℕ → ℕ → Attempt → List Bytes × Result BaseUdpMsg → List Bytes × Result BaseUdpMsg
connect_round request deadline now x (later, outcome) =
    let answered : List Bytes × Result BaseUdpMsg = elim x.answer [
      | timed_out ↦ (request ∷ later, outcome)
      | failed ↦ (request ∷ [], panic)
      | received datagram ↦
          (request ∷ [], parse_udp_connection_response (read_into max_packet_size datagram))
    ] in
    if ltb now deadline
    then if x.write_fails then ([], panic) else answered
    else ([], err deadline_exceeded)

-- The loop with the request that is built in front of it.
unfoldable pub connect_attempts : Bytes → ℕ → ℕ → List Attempt → List Bytes × Result BaseUdpMsg
connect_attempts request deadline now [] = ([], err deadline_exceeded)
connect_attempts request deadline now (x ∷ xs) =
    connect_round request deadline now x
      (connect_attempts request deadline (next_test connect_read_timeout now x) xs)

-- `sendConnectRequest` behind the dialling; its transaction id is drawn once.
unfoldable pub send_connect_request : ℕ → ℕ → ℕ → List Attempt → List Bytes × Result BaseUdpMsg
unfolding connect_attempts
send_connect_request transaction_id deadline now attempts =
    elim (new_udp_connection_request transaction_id) [
      | ok request ↦ connect_attempts request deadline now attempts
      | err e ↦ ([], err e)
      | panic ↦ ([], panic)
    ]

-- What an announcer says of itself: the info hash, the client's id and its port.
pub record Client : Type 0 where
  pub info_hash : Bytes
  pub peer_id : Bytes
  pub port : ℕ

-- The message of one attempt. The number of bytes left is always given as 0, and -1 peers are
-- wanted.
abbrev pub announce_msg : Client → ℕ → ℕ → AnnounceUdpMsg
announce_msg client connection_id transaction_id = record {
  base = record {
    action = udp_announce_request;
    connection_id = connection_id;
    transaction_id = transaction_id;
  };
  infohash = client.info_hash;
  peer_id = client.peer_id;
  downloaded = 67;
  uploaded = 20;
  left = 0;
  event = 0;
  key = 2;
  num_want = 2 ^ 64 - 1;
  port = client.port;
  ip = 0;
}

-- A round of the loop of `sendAnnounceRequest`, whose request is built anew.
abbrev pub announce_round :
    Client
    → BaseUdpMsg
    → ℕ
    → ℕ
    → Attempt
    → List Bytes × Result AnnounceResponseUdpMsg
    → List Bytes × Result AnnounceResponseUdpMsg
announce_round client response deadline now x (later, outcome) =
    let made : List Bytes × Result AnnounceResponseUdpMsg =
      elim (new_udp_announce_request
        (announce_msg client response.connection_id x.transaction_id)) [
          | ok request ↦
              let answered : List Bytes × Result AnnounceResponseUdpMsg = elim x.answer [
                | timed_out ↦ (request ∷ later, outcome)
                | failed ↦ (request ∷ [], panic)
                | received datagram ↦ (
                  request ∷ [],
                  parse_announce_response (read_into 1024 datagram) (length (take 1024 datagram)),
                )
              ] in
              if x.write_fails then ([], panic) else answered
          | err e ↦ ([], err e)
          | panic ↦ ([], panic)
        ] in
    if ltb now deadline then made else ([], err deadline_exceeded)

-- `sendAnnounceRequest`.
unfoldable pub send_announce_request :
    Client → BaseUdpMsg → ℕ → ℕ → List Attempt → List Bytes × Result AnnounceResponseUdpMsg
send_announce_request client response deadline now [] = ([], err deadline_exceeded)
send_announce_request client response deadline now (x ∷ xs) =
    announce_round client response deadline now x
      (send_announce_request client response deadline (next_test announce_read_timeout now x) xs)

-- What the tracker's host and the network do in one request: whether the connection can be set up,
-- and the rounds of the two loops. `dial_time` and `pause` are the times from the moment that the
-- deadline of a loop is computed to the first test of this loop.
pub record Exchange : Type 0 where
  pub dial_fails : Bool
  pub dial_time : ℕ
  pub transaction_id : ℕ
  pub connects : List Attempt
  pub pause : ℕ
  pub announces : List Attempt

-- `udpTracker2.handleRequest`: the interval, and the peers for `AddNewPeer`. The clock of each loop
-- starts when its deadline is computed.
unfoldable pub handle_udp_request : Client → Exchange → Result (ℕ × List Peer)
unfolding send_connect_request send_announce_request
handle_udp_request client x =
    let answered : Result (ℕ × List Peer) =
      (send_connect_request x.transaction_id udp_try_out_deadline x.dial_time x.connects).1
      >>= λ response.
          (send_announce_request client response udp_try_out_deadline x.pause x.announces).1
          >>= λ announce. create_peers_from_udp_tracker announce.peers_addresses >>= λ peers.
              ok (announce.interval, peers) in
    if x.dial_fails then panic else answered
