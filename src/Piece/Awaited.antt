-- ===== src/Piece/Awaited.antt =====
-- A piece that is being downloaded and of which no block has come.
use dawn_torrent.Base.{
  replicate, ◌>>=◌, bind_ok, Bool-cases, inl, inr, true, ltb, length-replicate, get_elem?-replicate,
  ◌/◌, ◌%◌, ℕ, zero, suc, ◌+◌, ◌-◌, ◌<◌, ◌≡◌, refl, sym, ap, ◌∙◌, false, List, [], ◌∷◌, ◌++◌, ok,
  length, arith,
}
use dawn_torrent.Utils.Bits.{is_bit_on-zero}
use dawn_torrent.Piece.{
  Piece, BlockRequest, has_sub_piece, start_download, download_round, get_next_request,
  request_loop, get_block_request_info, new_block_request, room, add_pending,
}
use dawn_torrent.Base.Int.{ℤ}

-- What the requests of a piece leave as it is.
record Kept (p q : Piece) : Type 0 where
  downloaded : q.downloaded ≡ p.downloaded
  buffer : q.buffer ≡ p.buffer
  piece_length : q.piece_length ≡ p.piece_length
  sub_piece_mask : q.sub_piece_mask ≡ p.sub_piece_mask

last_round :
    (p q : Piece) (n : ℕ)
    → q ≡ record p { request_index = p.request_index + n; end_of_piece = true }
    → Kept p q
last_round p q n same = record {
  downloaded = ap (λ x. x.downloaded) same;
  buffer = ap (λ x. x.buffer) same;
  piece_length = ap (λ x. x.piece_length) same;
  sub_piece_mask = ap (λ x. x.sub_piece_mask) same;
}

request_loop-Kept :
    (left i : ℕ) (p q : Piece) (rs requests : List BlockRequest)
    → request_loop p left i requests ≡ ok (rs, q)
    → Kept p q
unfolding request_loop
request_loop-Kept zero i p q rs requests h = record {
  downloaded = ground (arith, h);
  buffer = ground (arith, h);
  piece_length = ground (arith, h);
  sub_piece_mask = ground (arith, h);
}
request_loop-Kept (suc left) i p q rs requests h =
    let (info, at, rest) = bind_ok (get_block_request_info p i) _ (rs, q) h in
    let more = requests ++ (new_block_request p info.0 info.1 ∷ []) in
    elim (Bool-cases info.2) [
      | inl ends ↦ last_round p q (length more) (ground (arith, rest, ends))
      | inr going ↦ request_loop-Kept left (i + 1) p q rs more (ground (arith, rest, going))
    ]

download_round-Kept :
    (p q : Piece) (rs : List BlockRequest) → download_round p ≡ ok (rs, q) → Kept p q
unfolding download_round get_next_request
download_round-Kept p q rs h = elim (Bool-cases (ltb p.downloaded p.piece_length)) [
  | inr full ↦ same_piece (ground (arith, h, full))
  | inl open_piece ↦
      let asked = get_next_request p (room p.n_pending_request) in
      let counted : (asked >>= λ (requests, piece'). ok (
        requests,
        record piece' {
          n_pending_request = add_pending (length requests) piece'.n_pending_request;
        },
      ))
          ≡ ok (rs, q) =
        rw open_piece at h in
      let (out, returns, rest) = bind_ok asked _ (rs, q) counted in
      recount out.1 (add_pending (length out.0) out.1.n_pending_request) (ground (arith, rest))
        (elim (Bool-cases p.end_of_piece) [
          | inl ended ↦ same_piece (ground (arith, returns, ended))
          | inr going ↦
              request_loop-Kept (room p.n_pending_request) p.request_index p out.1 out.0 []
                (ground (arith, returns, going))
        ])
]
  where
    same_piece : {x y : Piece} → y ≡ x → Kept x y
    same_piece same = record {
      downloaded = ap (λ x. x.downloaded) same;
      buffer = ap (λ x. x.buffer) same;
      piece_length = ap (λ x. x.piece_length) same;
      sub_piece_mask = ap (λ x. x.sub_piece_mask) same;
    }

    recount : (r : Piece) (n : ℤ) → q ≡ record r { n_pending_request = n } → Kept p r → Kept p q
    recount r n same k = record {
      downloaded = ap (λ x. x.downloaded) same ∙ k.downloaded;
      buffer = ap (λ x. x.buffer) same ∙ k.buffer;
      piece_length = ap (λ x. x.piece_length) same ∙ k.piece_length;
      sub_piece_mask = ap (λ x. x.sub_piece_mask) same ∙ k.sub_piece_mask;
    }

has_sub_piece_same :
    (p q : Piece) (start : ℕ)
    → q.sub_piece_mask ≡ p.sub_piece_mask
    → has_sub_piece q start ≡ has_sub_piece p start
unfolding has_sub_piece
has_sub_piece_same p q start same = rw same refl

-- A piece whose download has begun and of which nothing has come: an empty count, a buffer of its
-- length, and a mask without a mark. The requests, the owners and the place in the queue are free.
pub record IsAwaited (p : Piece) : Type 0 where
  pub downloaded : p.downloaded ≡ 0
  pub buffer : length p.buffer ≡ p.piece_length
  pub unmarked : (start : ℕ) → start < p.piece_length → has_sub_piece p start ≡ ok false

-- A round of `download` on an awaited piece leaves it awaited.
pub download_round-IsAwaited :
    (p q : Piece) (rs : List BlockRequest)
    → IsAwaited p
    → download_round p ≡ ok (rs, q)
    → IsAwaited q
download_round-IsAwaited p q rs a h =
    let k = download_round-Kept p q rs h in
    record {
      downloaded = k.downloaded ∙ a.downloaded;
      buffer = ap length k.buffer ∙ a.buffer ∙ sym k.piece_length;
      unmarked = λ start below.
          has_sub_piece_same p q start k.sub_piece_mask
          ∙ a.unmarked start (omega (arith, below, k.piece_length));
    }

-- `start_download` makes a piece awaited that is new but for its owners, its place in the queue and its
-- other marks.
pub start_download-IsAwaited :
    (p : Piece)
    → p.downloaded ≡ 0
    → p.sub_piece_mask ≡ replicate ((p.piece_length + 16383) / 16384) 0
    → IsAwaited (start_download p)
unfolding start_download has_sub_piece
start_download-IsAwaited p none_yet mask = record {
  downloaded = none_yet;
  buffer = length-replicate p.piece_length 0;
  unmarked = λ start below.
      let at =
        get_elem?-replicate {A = ℕ} ((p.piece_length + 16383) / 16384) (start / 16384 / 8) 0
          (omega (arith, below)) in
      rw (mask, at) (ap ok (is_bit_on-zero (7 - start / 16384 % 8) (omega arith)));
}
