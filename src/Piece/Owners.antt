-- ===== src/Piece/Owners.antt =====
-- What `updateAvailability` keeps, and what it loses.
use dawn_torrent.Base.{ℕ, ◌≡◌, refl, true, false, List, [], ◌∷◌, Bytes, equal_bytes_iff, arith}
use dawn_torrent.Peer.{Peer, has_piece}
use dawn_torrent.Piece.{
  Piece, update_availability, increment_availability, decrement_availability, owns, disown,
}

-- Whatever the action and the peer, `updateAvailability` leaves the counter by which pieces are
-- ordered as it was.
pub availability-update_availability :
    (p : Piece) (action : ℕ) (peer : Peer)
    → (update_availability p action peer).0.availability ≡ p.availability
unfolding update_availability
availability-update_availability p action peer = ground arith

owns-disown : (id : Bytes) (xs : List Bytes) → owns id (disown id xs) ≡ false
unfolding owns disown
owns-disown id [] = refl
owns-disown id (x ∷ xs) = ground (arith, owns-disown id xs)

-- An increment for a peer that has the piece makes it an owner, and a second one for the same peer
-- changes neither the piece nor the peer; a decrement takes it off the owners again.
pub update_availability_twice :
    (p : Piece) (peer : Peer)
    → has_piece peer p.piece_index ≡ true
    → let out = update_availability p increment_availability peer in
      (owns peer.id out.0.owners ≡ true)
      × (update_availability out.0 increment_availability out.1 ≡ out)
      × (owns peer.id (update_availability out.0 decrement_availability peer).0.owners ≡ false)
unfolding update_availability has_piece
update_availability_twice p peer h = (
  ground (arith, equal_bytes_iff peer.id peer.id),
  ground (arith, equal_bytes_iff peer.id peer.id),
  ground (
    arith,
    equal_bytes_iff peer.id peer.id,
    owns-disown peer.id (peer.id ∷ p.owners),
    owns-disown peer.id p.owners,
  ),
)
