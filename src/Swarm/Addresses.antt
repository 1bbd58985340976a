-- ===== src/Swarm/Addresses.antt =====
-- Peers from the compact address list of a UDP tracker.
use dawn_torrent.Base.{
  ℕ, zero, suc, ◌+◌, ◌*◌, ◌/◌, ◌%◌, ◌≤◌, ◌<◌, ◌≡◌, refl, ◌∙◌, List, [], ◌∷◌, ◌++◌, Bytes, ok, ◌>>=◌,
  length, arith,
}
use dawn_torrent.Base.Decimal.{format_uint}
use dawn_torrent.Peer.{Peer, new_peer, new_peer_from_bytes, dotted}
use dawn_torrent.Swarm.{create_peers_from_udp_tracker, addresses_loop}

-- One address, four bytes and a port of two.
pub record Address : Type 0 where
  pub a : ℕ
  pub b : ℕ
  pub c : ℕ
  pub d : ℕ
  pub port : ℕ

abbrev pub address_bytes : Address → Bytes
address_bytes x = x.a ∷ x.b ∷ x.c ∷ x.d ∷ (x.port / 256 % 256) ∷ (x.port % 256) ∷ []

abbrev pub addresses_bytes : List Address → Bytes
addresses_bytes [] = []
addresses_bytes (x ∷ xs) = address_bytes x ++ addresses_bytes xs

-- The IP address in dotted decimal.
abbrev pub ip_text : Address → Bytes
ip_text x =
    format_uint x.a
    ++ (b'.' ∷ (format_uint x.b ++ (b'.' ∷ (format_uint x.c ++ (b'.' ∷ format_uint x.d)))))

-- The peer that an address stands for.
abbrev pub peer_at : Address → Peer
peer_at x = new_peer (ip_text x) (format_uint x.port) (ip_text x ++ (b':' ∷ format_uint x.port))

abbrev pub peers_at : List Address → List Peer
peers_at [] = []
peers_at (x ∷ xs) = peer_at x ∷ peers_at xs

abbrev pub Ports : List Address → Type 0
Ports [] = Unit {0}
Ports (x ∷ xs) = (x.port < 65536) × Ports xs

new_peer_from_address :
    (x : Address) → x.port < 65536 → new_peer_from_bytes (address_bytes x) ≡ ok (peer_at x)
unfolding new_peer_from_bytes dotted
new_peer_from_address x h =
    let whole : x.port / 256 % 256 * 256 + x.port % 256 ≡ x.port = omega arith in
    ground (arith, whole)

addresses_step :
    (fuel : ℕ) (x : Address) (rest : Bytes)
    → addresses_loop (suc fuel) (address_bytes x ++ rest) ≡ (
        new_peer_from_bytes (address_bytes x) >>= λ peer.
        (addresses_loop fuel rest >>= λ peers. ok (peer ∷ peers)))
unfolding addresses_loop
addresses_step fuel x rest = ground arith

addresses_loop-peers :
    (xs : List Address) (fuel : ℕ)
    → Ports xs
    → length (addresses_bytes xs) ≤ fuel
    → addresses_loop fuel (addresses_bytes xs) ≡ ok (peers_at xs)
unfolding addresses_loop
addresses_loop-peers [] zero ports enough = refl
addresses_loop-peers [] (suc fuel) ports enough = refl
addresses_loop-peers (x ∷ xs) zero ports enough = absurd (omega arith)
addresses_loop-peers (x ∷ xs) (suc fuel) ports enough =
    addresses_step fuel x (addresses_bytes xs)
    ∙ rw (new_peer_from_address x ports.0, addresses_loop-peers xs fuel ports.1 (omega arith)) refl

-- A list of whole addresses gives one peer for each, in order, known by its IP address in dotted
-- decimal and its port in decimal.
pub create_peers_from_udp_tracker-peers :
    (xs : List Address)
    → Ports xs
    → create_peers_from_udp_tracker (addresses_bytes xs) ≡ ok (peers_at xs)
unfolding create_peers_from_udp_tracker
create_peers_from_udp_tracker-peers xs ports =
    addresses_loop-peers xs (length (addresses_bytes xs)) ports (omega arith)
