-- ===== src/Tracker/Requests/Exchanges.antt =====
-- core/tracker/scrape_strategy.go: an announce to a UDP tracker, and the deadlines of its loops.
use dawn_torrent.Base.{
  ℕ, ◌+◌, ◌-◌, ◌*◌, ◌^◌, ◌≤◌, ◌<◌, ◌≡◌, refl, ap, ◌∙◌, true, false, List, [], ◌∷◌, ◌++◌, Bytes,
  Result, ok, err, panic, ◌>>=◌, if◌then◌else◌, deadline_exceeded, ltb, length, take_all, replicate,
  put_uint32, put_uint64, arith,
}
use dawn_torrent.Tracker.Udp.{
  udp_protocol_id, BaseUdpMsg, AnnounceResponseUdpMsg, parse_udp_connection_response,
  parse_announce_response, new_udp_connection_request, new_udp_announce_request,
}
use dawn_torrent.Tracker.Udp.Layout.{
  HasLayout, new_udp_announce_request_layout, parse_udp_connection_response-put,
  parse_announce_response_skips,
}
use dawn_torrent.Peer.{Peer}
use dawn_torrent.Swarm.{create_peers_from_udp_tracker}
use dawn_torrent.Swarm.Addresses.{
  Address, address_bytes, addresses_bytes, peers_at, Ports, create_peers_from_udp_tracker-peers,
}
use dawn_torrent.Tracker.Requests.{
  Answer, timed_out, failed, received, Attempt, Exchange, max_packet_size, udp_try_out_deadline,
  connect_read_timeout, announce_read_timeout, next_test, connect_round, connect_attempts,
  send_connect_request, Client, announce_msg, announce_round, send_announce_request,
  handle_udp_request,
}

-- A round with a datagram.
abbrev pub answered : ℕ → ℕ → Bytes → Attempt
answered t delay datagram = record {
  transaction_id = t;
  write_fails = false;
  answer = received datagram;
  delay = delay;
  late = 0;
}

-- Behind its deadline a loop makes no round.
connect_attempts_late :
    (request : Bytes) (deadline now : ℕ) (xs : List Attempt)
    → deadline ≤ now
    → connect_attempts request deadline now xs ≡ ([], err deadline_exceeded)
unfolding connect_attempts
connect_attempts_late request deadline now [] h = refl
connect_attempts_late request deadline now (x ∷ xs) h =
    let over : ltb now deadline ≡ false = ground arith in rw (connect_attempts, over) refl

send_announce_request_late :
    (client : Client) (response : BaseUdpMsg) (deadline now : ℕ) (xs : List Attempt)
    → deadline ≤ now
    → send_announce_request client response deadline now xs ≡ ([], err deadline_exceeded)
unfolding send_announce_request
send_announce_request_late client response deadline now [] h = refl
send_announce_request_late client response deadline now (x ∷ xs) h =
    let over : ltb now deadline ≡ false = ground arith in rw (send_announce_request, over) refl

-- A read that times out ends behind the deadline of its loop, so that the first round is the last.
connect_attempts_once :
    (request : Bytes) (now : ℕ) (x : Attempt) (xs : List Attempt)
    → connect_attempts request udp_try_out_deadline now (x ∷ xs)
      ≡ connect_attempts request udp_try_out_deadline now (x ∷ [])
unfolding connect_attempts
connect_attempts_once request now x xs =
    let late =
      connect_attempts_late request udp_try_out_deadline (next_test connect_read_timeout now x) xs
        (omega arith) in
    ap (connect_round request udp_try_out_deadline now x) late

send_announce_request_once :
    (client : Client) (response : BaseUdpMsg) (now : ℕ) (x : Attempt) (xs : List Attempt)
    → send_announce_request client response udp_try_out_deadline now (x ∷ xs)
      ≡ send_announce_request client response udp_try_out_deadline now (x ∷ [])
unfolding send_announce_request
send_announce_request_once client response now x xs =
    let late =
      send_announce_request_late client response udp_try_out_deadline
        (next_test announce_read_timeout now x) xs (omega arith) in
    ap (announce_round client response udp_try_out_deadline now x) late

-- The replies in the layout of the protocol.
abbrev pub connect_reply : ℕ → ℕ → ℕ → Bytes
connect_reply action transaction connection =
    put_uint32 action ++ (put_uint32 transaction ++ put_uint64 connection)

abbrev pub announce_reply : ℕ → ℕ → ℕ → ℕ → ℕ → List Address → Bytes
announce_reply action transaction interval leechers seeders addresses =
    put_uint32 action
    ++ (put_uint32 transaction
        ++ (put_uint32 interval
            ++ (put_uint32 leechers ++ (put_uint32 seeders ++ addresses_bytes addresses))))

length-addresses_bytes : (xs : List Address) → length (addresses_bytes xs) ≡ 6 * length xs
length-addresses_bytes [] = refl
length-addresses_bytes (x ∷ xs) = omega (arith, length-addresses_bytes xs)

-- The connect request's 16 bytes.
abbrev connect_request : ℕ → Bytes
connect_request t = put_uint64 udp_protocol_id ++ (put_uint32 0 ++ put_uint32 t)

send_connect_request-eq :
    (t deadline now : ℕ) (xs : List Attempt)
    → send_connect_request t deadline now xs ≡ connect_attempts (connect_request t) deadline now xs
unfolding send_connect_request new_udp_connection_request
send_connect_request-eq t deadline now xs = refl

-- The chain of the two exchanges.
handle_udp_request-chain :
    (client : Client) (t dial_time pause : ℕ) (cs us : List Attempt) (r : BaseUdpMsg)
    (a : AnnounceResponseUdpMsg) (peers : List Peer)
    → (connect_attempts (connect_request t) udp_try_out_deadline dial_time cs).1 ≡ ok r
    → (send_announce_request client r udp_try_out_deadline pause us).1 ≡ ok a
    → create_peers_from_udp_tracker a.peers_addresses ≡ ok peers
    → handle_udp_request client (record {
      dial_fails = false;
      dial_time = dial_time;
      transaction_id = t;
      connects = cs;
      pause = pause;
      announces = us;
    })
      ≡ ok (a.interval, peers)
unfolding handle_udp_request new_udp_connection_request
handle_udp_request-chain client t dial_time pause cs us r a peers connected announced created =
    rw (handle_udp_request, connected, announced, created) refl

-- A datagram that fits the buffer is read whole.
connect_attempts-answered :
    (request : Bytes) (deadline now t delay : ℕ) (d : Bytes) (xs : List Attempt)
    → now < deadline
    → length d ≤ max_packet_size
    → (connect_attempts request deadline now (answered t delay d ∷ xs)).1
      ≡ parse_udp_connection_response (d ++ replicate (max_packet_size - length d) 0)
unfolding connect_attempts
connect_attempts-answered request deadline now t delay d xs early h =
    let on : ltb now deadline ≡ true = ground arith in
    rw (connect_attempts, on, take_all d max_packet_size h) refl

send_announce_request-answered :
    (client : Client) (r : BaseUdpMsg) (deadline now t delay : ℕ) (d : Bytes) (xs : List Attempt)
    → now < deadline
    → length d ≤ 1024
    → (send_announce_request client r deadline now (answered t delay d ∷ xs)).1
      ≡ parse_announce_response (d ++ replicate (1024 - length d) 0) (length d)
unfolding send_announce_request new_udp_announce_request
send_announce_request-answered client r deadline now t delay d xs early h =
    let on : ltb now deadline ≡ true = ground arith in
    rw (send_announce_request, on, take_all d 1024 h) refl

-- A round that is made sends its request, and no other is made.
sent_once :
    (client : Client) (r : BaseUdpMsg) (now t delay late : ℕ) (answer : Answer) (request : Bytes)
    → new_udp_announce_request (announce_msg client r.connection_id t) ≡ ok request
    → now < udp_try_out_deadline
    → (send_announce_request client r udp_try_out_deadline now (
        record {
          transaction_id = t;
          write_fails = false;
          answer = answer;
          delay = delay;
          late = late;
        }
        ∷ [])).0
      ≡ request ∷ []
unfolding send_announce_request
sent_once client r now t delay late timed_out request built early =
    let on : ltb now udp_try_out_deadline ≡ true = ground arith in
    rw (send_announce_request, built, on) refl
sent_once client r now t delay late failed request built early =
    let on : ltb now udp_try_out_deadline ≡ true = ground arith in
    rw (send_announce_request, built, on) refl
sent_once client r now t delay late (received d) request built early =
    let on : ltb now udp_try_out_deadline ≡ true = ground arith in
    rw (send_announce_request, built, on) refl

-- Where the loop of the announce begins before its deadline and the first write does not fail, one
-- datagram is sent, whatever is read, and no other. It has the layout of the protocol: the
-- connection id of the tracker's answer to the connect request, the action 1, the transaction id that
-- was drawn, the client's info hash and id, of 20 bytes each, 67 bytes downloaded, 0 left and 20
-- uploaded, the event, the address 0, the key 2, -1 for the peers wanted, and the client's port.
pub send_announce_request-Sent :
    (client : Client) (response : BaseUdpMsg) (now t delay late : ℕ) (answer : Answer)
    (xs : List Attempt)
    → length client.info_hash ≡ 20
    → length client.peer_id ≡ 20
    → now < udp_try_out_deadline
    → (d : Bytes) × ((send_announce_request client response udp_try_out_deadline now (
          record {
            transaction_id = t;
            write_fails = false;
            answer = answer;
            delay = delay;
            late = late;
          }
          ∷ xs)).0
        ≡ d ∷ [])
      × HasLayout
          (record {
            base = record {
              action = 1;
              connection_id = response.connection_id;
              transaction_id = t;
            };
            infohash = client.info_hash;
            peer_id = client.peer_id;
            downloaded = 67;
            uploaded = 20;
            left = 0;
            event = 0;
            key = 2;
            num_want = 2 ^ 64 - 1;
            port = client.port;
            ip = 0;
          })
          d
send_announce_request-Sent client response now t delay late answer xs hash id early =
    let (request, built, layout) =
      new_udp_announce_request_layout (announce_msg client response.connection_id t) hash id in
    let round : Attempt = record {
      transaction_id = t;
      write_fails = false;
      answer = answer;
      delay = delay;
      late = late;
    } in
    (
      request,
      ap (λ o. o.0) (send_announce_request_once client response now round xs)
          ∙ sent_once client response now t delay late answer request built early,
      layout,
    )

-- Neither loop of a request to a UDP tracker ever makes a second round, although both are written to
-- try again after a timeout: whatever further rounds could bring, the request ends as with the first
-- rounds alone.
pub handle_udp_request_once :
    (client : Client) (x : Exchange) (connect announce : Attempt) (xs ys : List Attempt)
    → handle_udp_request client (record x { connects = connect ∷ xs; announces = announce ∷ ys })
      ≡ handle_udp_request client (record x { connects = connect ∷ []; announces = announce ∷ [] })
unfolding handle_udp_request send_connect_request new_udp_connection_request
handle_udp_request_once client x connect announce xs ys = λ i.
    let answered : Result (ℕ × List Peer) =
      (connect_attempts_once (connect_request x.transaction_id) x.dial_time connect xs i).1
      >>= λ response. (send_announce_request_once client response x.pause announce ys i).1 >>= λ a.
          create_peers_from_udp_tracker a.peers_addresses >>= λ peers. ok (a.interval, peers) in
    if x.dial_fails then panic else answered

-- A tracker that answers the first connect request and the first announce request in time and in the
-- protocol's layout, with at most 167 addresses: the request gives the interval that the tracker
-- asks for, and a peer for each of its addresses but the first.
pub handle_udp_request-answered :
    (client : Client) (t dial_time pause connect announce wait wait2 : ℕ) (xs ys : List Attempt)
    (action transaction connection action2 transaction2 interval leechers seeders : ℕ)
    (first : Address) (others : List Address)
    → dial_time < udp_try_out_deadline
    → pause < udp_try_out_deadline
    → action < 2 ^ 32
    → transaction < 2 ^ 32
    → connection < 2 ^ 64
    → action2 < 2 ^ 32
    → transaction2 < 2 ^ 32
    → interval < 2 ^ 32
    → leechers < 2 ^ 32
    → seeders < 2 ^ 32
    → Ports others
    → length others ≤ 166
    → handle_udp_request client (record {
      dial_fails = false;
      dial_time = dial_time;
      transaction_id = t;
      connects = answered connect wait (connect_reply action transaction connection) ∷ xs;
      pause = pause;
      announces =
          answered announce wait2
            (announce_reply action2 transaction2 interval leechers seeders (first ∷ others))
          ∷ ys;
    })
      ≡ ok (interval, peers_at others)
handle_udp_request-answered client t dial_time pause connect announce wait wait2 xs ys action
      transaction connection action2 transaction2 interval leechers seeders first others dialled
      early ha ht hc ha2 ht2 hi hl hs ports few =
    let reply = announce_reply action2 transaction2 interval leechers seeders (first ∷ others) in
    let size : length reply ≡ 20 + 6 + length (addresses_bytes others) = omega arith in
    let fits : length reply ≤ 1024 = omega (arith, size, length-addresses_bytes others) in
    let response : BaseUdpMsg = record {
      action = action;
      connection_id = connection;
      transaction_id = transaction;
    } in
    handle_udp_request-chain client t dial_time pause _ _ response _ (peers_at others)
      (connect_attempts-answered (connect_request t) udp_try_out_deadline dial_time connect wait
          (connect_reply action transaction connection) xs dialled (omega arith)
        ∙ parse_udp_connection_response-put action transaction connection _ ha ht hc)
      (send_announce_request-answered client response udp_try_out_deadline pause announce wait2
          reply ys early fits
        ∙ ap (parse_announce_response (reply ++ replicate (1024 - length reply) 0)) size
        ∙ parse_announce_response_skips action2 transaction2 interval leechers seeders
            (address_bytes first) (addresses_bytes others) (replicate (1024 - length reply) 0) refl
            ha2 ht2 hi hl hs)
      (create_peers_from_udp_tracker-peers others ports)
