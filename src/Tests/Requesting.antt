-- ===== src/Tests/Requesting.antt =====
-- Announces over UDP and HTTP.
use dawn_torrent.Base.{◌^◌, ◌-◌, ◌≡◌, ◌≢◌, refl, false, [], ◌∷◌, Bytes, ok, none, replicate, arith}
use dawn_torrent.Bencode.Parsing.{returned}
use dawn_torrent.Swarm.Addresses.{Address, peers_at}
use dawn_torrent.Tracker.Udp.{BaseUdpMsg}
use dawn_torrent.Tracker.Udp.Layout.{HasLayout}
use dawn_torrent.Tracker.Requests.{
  Client, Attempt, timed_out, Exchange, udp_try_out_deadline, send_announce_request,
  handle_udp_request,
}
use dawn_torrent.Tracker.Requests.Exchanges.{
  answered, connect_reply, announce_reply, send_announce_request-Sent, handle_udp_request_once,
  handle_udp_request-answered,
}
use dawn_torrent.Tracker.Requests.Http.{handle_http_request, handle_http_request_never_returns}

abbrev client : Client
client = record { info_hash = replicate 20 7; peer_id = replicate 20 9; port = 6885 }

abbrev reply : BaseUdpMsg
reply = record { action = 0; connection_id = 77; transaction_id = 5 }

send_announce_request-Sent_example :
    (d : Bytes) × ((send_announce_request client reply udp_try_out_deadline 5 (
        record { transaction_id = 3; write_fails = false; answer = timed_out; delay = 10; late = 0 }
        ∷ answered 4 0 []
        ∷ [])).0
      ≡ d ∷ [])
    × HasLayout
        (record {
          base = record { action = 1; connection_id = 77; transaction_id = 3 };
          infohash = replicate 20 7;
          peer_id = replicate 20 9;
          downloaded = 67;
          uploaded = 20;
          left = 0;
          event = 0;
          key = 2;
          num_want = 2 ^ 64 - 1;
          port = 6885;
          ip = 0;
        })
        d
send_announce_request-Sent_example =
    send_announce_request-Sent client reply 5 3 10 0 timed_out (answered 4 0 [] ∷ []) refl refl
      (omega arith)

abbrev one_address : Address
one_address = record { a = 10; b = 0; c = 0; d = 1; port = 6881 }

abbrev other_address : Address
other_address = record { a = 10; b = 0; c = 0; d = 2; port = 6882 }

handle_udp_request-answered_example :
    handle_udp_request client (record {
      dial_fails = false;
      dial_time = 300;
      transaction_id = 1;
      connects = answered 2 40 (connect_reply 0 1 77) ∷ [];
      pause = 9;
      announces =
          answered 3 50 (announce_reply 1 3 1800 4 5 (one_address ∷ other_address ∷ [])) ∷ [];
    })
    ≡ ok (1800, peers_at (other_address ∷ []))
handle_udp_request-answered_example =
    handle_udp_request-answered client 1 300 9 2 3 40 50 [] [] 0 1 77 1 3 1800 4 5 one_address
      (other_address ∷ []) (omega arith) (omega arith) (omega arith) (omega arith) (omega arith)
      (omega arith) (omega arith) (omega arith) (omega arith) (omega arith) (omega arith, tt)
      (omega arith)

-- The first connect request stays without an answer, and a second one would have been answered.
abbrev exchange : Exchange
exchange = record {
  dial_fails = false;
  dial_time = 300;
  transaction_id = 1;
  connects = [];
  pause = 9;
  announces = [];
}

abbrev unanswered : Attempt
unanswered = record {
  transaction_id = 2;
  write_fails = false;
  answer = timed_out;
  delay = 10;
  late = 4;
}

handle_udp_request_once_example :
    handle_udp_request client (record exchange {
      connects = unanswered ∷ answered 2 40 (connect_reply 0 1 77) ∷ [];
      announces = answered 3 50 [] ∷ [];
    })
    ≡ handle_udp_request client
        (record exchange { connects = unanswered ∷ []; announces = answered 3 50 [] ∷ [] })
handle_udp_request_once_example =
    handle_udp_request_once client exchange unanswered (answered 3 50 [])
      (answered 2 40 (connect_reply 0 1 77) ∷ []) []

handle_http_request_never_returns_example : handle_http_request 9 none ≢ returned (0, [])
handle_http_request_never_returns_example = handle_http_request_never_returns 9 none (0, [])
