-- ===== src/Manager/Assembly/Receiving.antt =====
-- From the bytes that a peer sends to the buffer of a piece.
use dawn_torrent.Base.{
  ℕ, zero, suc, ◌+◌, ◌<◌, ◌≤◌, ◌^◌, ◌≡◌, refl, sym, ap, ◌∙◌, false, List, [], ◌∷◌, ◌++◌, map, Bytes,
  Option, some, ok, All, length, take, drop, get_elem?, set, length-append, length-take,
  length-splice, take-append_length, take_all, splice, arith,
}
use mathlib.Core.List.{append_assoc, append-nil}
use dawn_torrent.Piece.{Piece, has_sub_piece, put_piece}
use dawn_torrent.Piece.Awaited.{IsAwaited}
use dawn_torrent.Piece.Buffer.{accepted, put_piece-eq}
use dawn_torrent.Wire.{TorrentMsg}
use dawn_torrent.Swarm.{handle_msg_stream}
use dawn_torrent.Swarm.Blocks.{Block, Consecutive, blocks_bytes, piece_of, handle_msg_stream-blocks}
use dawn_torrent.Downloader.{put_block}
use dawn_torrent.Handlers.{handle_msg}
use dawn_torrent.Manager.Assembly.{TorrentManager, msg_router}

-- The bytes of the blocks.
abbrev pub joined : List Block → Bytes
joined [] = []
joined (b ∷ bs) = b.1 ++ joined bs

abbrev pub pieces_of : TorrentManager → List Piece
pieces_of m = m.downloader.queue.pieces

-- The manager with a piece replaced.
abbrev with_piece : TorrentManager → ℕ → Piece → TorrentManager
with_piece m i p = record m {
  downloader = record (m.downloader) {
    queue = record (m.downloader.queue) { pieces = set (pieces_of m) i p };
  };
}

route_block :
    (m : TorrentManager) (i : ℕ) (p q : Piece) (b : Block) (peer : Option ℕ)
    (msgs : List TorrentMsg)
    → get_elem? (pieces_of m) i ≡ some p
    → put_piece p b.0 b.1 ≡ ok q
    → msg_router (piece_of peer i b ∷ msgs) m ≡ msg_router msgs (with_piece m i q)
unfolding msg_router handle_msg put_block
route_block m i p q b peer msgs at put = rw (msg_router, at, put) refl

set_there :
    (ps : List Piece) (i : ℕ) (p q : Piece)
    → get_elem? ps i ≡ some p
    → get_elem? (set ps i q) i ≡ some q
set_there [] i p q at = absurd (ground (arith, at))
set_there (x ∷ xs) zero p q at = refl
set_there (x ∷ xs) (suc i) p q at = set_there xs i p q at

-- What a block at the end of the front of a buffer makes of the front.
front-splice :
    (buffer : Bytes) (a : ℕ) (xs : Bytes)
    → a + length xs ≤ length buffer
    → take (a + length xs) (splice buffer a xs) ≡ take a buffer ++ xs
front-splice buffer a xs fits =
    let front = take a buffer ++ xs in
    let size : length front ≡ a + length xs =
      omega (arith, length-append (take a buffer) xs, length-take a buffer) in
    let rest = drop (a + length xs) buffer in
    ap (take (a + length xs)) (sym (append_assoc (take a buffer) xs rest))
    ∙ ap (λ n. take n (front ++ rest)) (sym size)
    ∙ take-append_length front rest

-- What has come of a piece and its manager.
record Filled (m : TorrentManager) (i : ℕ) (p : Piece) (msgs : List TorrentMsg) (bytes : Bytes)
    : Type 0 where
  after : TorrentManager
  piece : Piece
  routes : msg_router msgs m ≡ ok after
  at : get_elem? (pieces_of after) i ≡ some piece
  buffer : piece.buffer ≡ bytes
  downloaded : piece.downloaded ≡ p.piece_length

msg_router-Filled :
    (bs : List Block) (m : TorrentManager) (i a : ℕ) (p : Piece) (peer : Option ℕ)
    → get_elem? (pieces_of m) i ≡ some p
    → Consecutive a bs
    → All (λ b. has_sub_piece p b.0 ≡ ok false) bs
    → p.downloaded ≡ a
    → length p.buffer ≡ p.piece_length
    → a + length (joined bs) ≡ p.piece_length
    → Filled m i p (map (piece_of peer i) bs) (take a p.buffer ++ joined bs)
unfolding msg_router has_sub_piece
msg_router-Filled [] m i a p peer at c missing got full total = record {
  after = m;
  piece = p;
  routes = refl;
  at = at;
  buffer = sym (append-nil (take a p.buffer) ∙ take_all p.buffer a (omega (arith, full, total)));
  downloaded = omega (arith, got, total);
}
msg_router-Filled (b ∷ bs) m i a p peer at (begins, low, some_byte, short, c) (known, missing) got
      full total =
    let size = length-append b.1 (joined bs) in
    let fits : b.0 + length b.1 ≤ length p.buffer = omega (arith, begins, size, total, full) in
    let put = put_piece-eq p b.0 b.1 known (omega (arith, got, total, size, some_byte)) fits in
    let q = accepted p b.0 b.1 in
    let f =
      msg_router-Filled bs (with_piece m i q) i (a + length b.1) q peer
        (set_there (pieces_of m) i p q at) c missing (omega (arith, got))
        (omega (arith, length-splice p.buffer b.0 b.1 fits, full)) (omega (arith, total, size)) in
    record {
      after = f.after;
      piece = f.piece;
      routes = route_block m i p q b peer (map (piece_of peer i) bs) at put ∙ f.routes;
      at = f.at;
      buffer =
          f.buffer
          ∙ ap (λ l. l ++ joined bs)
              (ap (λ k. take (a + length b.1) (splice p.buffer k b.1)) begins
                ∙ front-splice p.buffer a b.1 (omega (arith, begins, fits)))
          ∙ append_assoc (take a p.buffer) b.1 (joined bs);
      downloaded = f.downloaded;
    }

none_marked :
    (p : Piece) (a : ℕ) (bs : List Block)
    → IsAwaited p
    → Consecutive a bs
    → a + length (joined bs) ≡ p.piece_length
    → All (λ b. has_sub_piece p b.0 ≡ ok false) bs
none_marked p a [] w c total = tt
none_marked p a (b ∷ bs) w (begins, low, some_byte, short, c) total =
    let whole = length-append b.1 (joined bs) in
    (
      w.unmarked b.0 (omega (arith, begins, some_byte, total, whole)),
      none_marked p (a + length b.1) bs w c (omega (arith, total, whole)),
    )

-- The piece at an index is being downloaded and nothing of it has come, whatever it has requested and
-- whoever owns it, and its peer sends its blocks by the protocol, one behind the other from the
-- start to the end of the piece, with a 32-bit index and 32-bit lengths. Then reading the stream,
-- parsing the messages, and routing and handling them never panics, and leaves the blocks' bytes in
-- the buffer of this piece, which counts as complete.
pub msg_router-handle_msg_stream :
    (m : TorrentManager) (bs : List Block) (i fuel : ℕ) (p : Piece) (peer : Option ℕ)
    → get_elem? (pieces_of m) i ≡ some p
    → IsAwaited p
    → i < 2 ^ 32
    → Consecutive 0 bs
    → length (joined bs) ≡ p.piece_length
    → length bs < fuel
    → (after : TorrentManager) × (q : Piece) × (msg_router
          (handle_msg_stream fuel (blocks_bytes i bs) peer).0
          m
        ≡ ok after)
      × (get_elem? (pieces_of after) i ≡ some q)
      × (q.buffer ≡ joined bs)
      × (q.downloaded ≡ p.piece_length)
msg_router-handle_msg_stream m bs i fuel p peer at w small c total enough =
    let sum : 0 + length (joined bs) ≡ p.piece_length = omega (arith, total) in
    let f =
      msg_router-Filled bs m i 0 p peer at c (none_marked p 0 bs w c sum) w.downloaded w.buffer
        sum in
    let read = handle_msg_stream-blocks bs fuel i 0 peer small c enough in
    (f.after, f.piece, ap (λ r. msg_router r.0 m) read ∙ f.routes, f.at, f.buffer, f.downloaded)
