-- ===== src/Handlers.antt =====
-- core/msg_handler.go, and the dispatch by `handleMsg` of core/torrent_message.go.
pub mod Interest
use dawn_torrent.Base.{
  ℕ, Bool, true, false, List, Bytes, Option, none, some, Result, ok, panic, ◌>>=◌, or_panic,
  get_elem?, set,
}
use dawn_torrent.Wire.{
  TorrentMsg, Header, plain, choke, unchoke, interested, uninterested, have, bitfield, request,
  cancel, piece,
}
use dawn_torrent.Peer.{Peer, set_choke, update_bitfield, set_bit_field}
use dawn_torrent.Downloader.{Downloader, put_block, update_piece_priority}

-- The peers, and the downloader with its pieces.
pub record Session : Type 0 where
  pub peers : List Peer
  pub downloader : Downloader

-- The peer of a message; a message without one has a nil pointer.
unfoldable pub sender : Header → Session → Result (ℕ × Peer)
sender h s = do i ← or_panic h.peer; peer ← or_panic (get_elem? s.peers i); ok (i, peer)

-- A handler that changes only the peer.
unfoldable pub change_peer : Header → (Peer → Peer) → Session → Result Session
unfolding sender
change_peer h f s = sender h s >>= λ r. ok (record s { peers = set s.peers r.0 (f r.1) })

-- A handler that changes the peer's bitfield, and then the priority of the pieces.
unfoldable pub change_bitfield : Header → (Peer → Peer) → Session → Result Session
unfolding sender update_piece_priority
change_bitfield h f s = sender h s >>= λ r. update_piece_priority (f r.1) s.downloader >>= λ u.
    ok (record { peers = set s.peers r.0 u.0; downloader = u.1 })

unfoldable pub handle_msg : TorrentMsg → Session → Result Session
unfolding change_peer change_bitfield put_block
handle_msg (plain h) s = sender h s >>= λ r. ok s
handle_msg (choke h) s = change_peer h (λ p. set_choke p true) s
handle_msg (unchoke h) s = change_peer h (λ p. set_choke p false) s
handle_msg (interested h) s = change_peer h (λ p. record p { is_interested = false }) s
handle_msg (uninterested h) s = change_peer h (λ p. record p { is_interested = false }) s
handle_msg (have h index) s = change_bitfield h (λ p. update_bitfield p index) s
handle_msg (bitfield h bits len) s = change_bitfield h (λ p. set_bit_field p bits) s
handle_msg (request h index begin block) s = ok s
handle_msg (cancel h index begin block) s = ok s
handle_msg (piece h index begin block payload) s =
    put_block index begin payload s.downloader >>= λ d. ok (record s { downloader = d })
