-- ===== src/Tests/Swarming.antt =====
-- Streams, addresses and the choice of a peer.
use dawn_torrent.Base.{ℕ, ◌≡◌, refl, false, List, [], ◌∷◌, map, Bytes, none, some, arith}
use dawn_torrent.Base.Int.{pos}
use dawn_torrent.Utils.{is_bit_on}
use dawn_torrent.Peer.{Peer, new_peer, is_available}
use dawn_torrent.Swarm.{handle_msg_stream, no_length, select_peer}
use dawn_torrent.Swarm.Streams.{Fields, requests_bytes, request_of, handle_msg_stream-requests}
use dawn_torrent.Swarm.Selection.{Selected, select_peer-some}
use dawn_torrent.Swarm.Addresses.{Address}

abbrev requests : List Fields
requests = (5, 0, 16384) ∷ (5, 16384, 1000) ∷ []

handle_msg_stream-requests_example :
    handle_msg_stream 3 (requests_bytes requests) (some 1)
    ≡ (map (request_of (some 1)) requests, no_length)
handle_msg_stream-requests_example =
    handle_msg_stream-requests requests 3 (some 1)
      ((omega arith, omega arith, omega arith), ((omega arith, omega arith, omega arith), tt))
      (omega arith)

abbrev addresses : List Address
addresses =
    record { a = 10; b = 0; c = 0; d = 7; port = 6881 }
    ∷ record { a = 192; b = 168; c = 1; d = 20; port = 51413 }
    ∷ []

abbrev choking : Peer
choking = new_peer [] [] (1 ∷ [])

abbrev helpful : Peer
helpful = record (new_peer [] [] (2 ∷ [])) {
  is_choking = false;
  bitfield = 64 ∷ [];
  is_free = pos 2;
}

abbrev busy : Peer
busy = record helpful { is_free = pos 3 }

abbrev active : List (Bytes × ℕ)
active = ((1 ∷ []), 0) ∷ ((2 ∷ []), 1) ∷ []

selected : select_peer active 1 (choking ∷ helpful ∷ []) ≡ some (1, choking ∷ busy ∷ [])
unfolding select_peer is_available is_bit_on new_peer
selected = refl

select_peer-some_example : Selected 1 (choking ∷ helpful ∷ []) (choking ∷ busy ∷ []) 1
unfolding new_peer
select_peer-some_example =
    select_peer-some active 1 (choking ∷ helpful ∷ []) (choking ∷ busy ∷ []) 1
      (omega arith, (omega arith, tt)) selected

waits : select_peer active 1 (choking ∷ busy ∷ []) ≡ none
unfolding select_peer is_available is_bit_on new_peer
waits = refl
