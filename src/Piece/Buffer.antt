-- ===== src/Piece/Buffer.antt =====
-- Where `putPiece` writes, and what it counts.
use dawn_torrent.Base.{
  ℕ, ◌+◌, ◌-◌, ◌*◌, ◌≤◌, ◌<◌, ◌≡◌, refl, false, ◌&&◌, Bytes, ok, length, get_elem?, splice,
  length-splice, get_elem?-splice, ltb, leb, if◌then◌else◌, arith,
}
use dawn_torrent.Base.Int.{pred_ℤ}
use dawn_torrent.Piece.{Piece, has_sub_piece, put_piece, write_to_buffer}

-- The piece with the payload written and counted.
abbrev pub accepted : Piece → ℕ → Bytes → Piece
accepted p begin payload = record p {
  downloaded = p.downloaded + length payload;
  buffer = splice p.buffer begin payload;
  n_pending_request = pred_ℤ p.n_pending_request;
}

module _ (p : Piece) (begin : ℕ) (payload : Bytes) (missing : has_sub_piece p begin ≡ ok false)
    (open_piece : p.downloaded < p.piece_length)
    (fits : begin + length payload ≤ length p.buffer) where
  pub put_piece-eq : put_piece p begin payload ≡ ok (accepted p begin payload)
  unfolding put_piece write_to_buffer
  put_piece-eq = rw (missing) (ground arith)

  -- An accepted block stands in the buffer at its begin index, every other byte is as before, the
  -- length of the payload is counted as downloaded, and one request less is pending.
  pub put_piece_writes :
      (q : Piece) × (put_piece p begin payload ≡ ok q)
      × (length q.buffer ≡ length p.buffer)
      × ((j : ℕ)
          → get_elem? q.buffer j ≡ (
              if leb begin j && ltb j (begin + length payload)
              then get_elem? payload (j - begin)
              else get_elem? p.buffer j))
      × (q.downloaded ≡ p.downloaded + length payload)
      × (q.n_pending_request ≡ pred_ℤ p.n_pending_request)
      × (q.sub_piece_mask ≡ p.sub_piece_mask)
  put_piece_writes = (
    _,
    put_piece-eq,
    length-splice p.buffer begin payload fits,
    λ j. get_elem?-splice p.buffer begin payload j fits,
    refl,
    refl,
    refl,
  )

-- A block that is not marked in the mask and fits into the buffer, and after which bytes are still
-- missing, is counted twice when it comes twice; the second copy leaves the buffer as it is.
pub put_piece_twice :
    (p : Piece) (begin : ℕ) (payload : Bytes)
    → has_sub_piece p begin ≡ ok false
    → p.downloaded + length payload < p.piece_length
    → begin + length payload ≤ length p.buffer
    → (q r : Piece) × (put_piece p begin payload ≡ ok q)
      × (put_piece q begin payload ≡ ok r)
      × (r.downloaded ≡ p.downloaded + 2 * length payload)
      × ((j : ℕ) → get_elem? r.buffer j ≡ get_elem? q.buffer j)
unfolding has_sub_piece
put_piece_twice p begin payload missing more fits =
    let q = accepted p begin payload in
    let size = length-splice p.buffer begin payload fits in
    let fits' : begin + length payload ≤ length q.buffer = omega (arith, size) in
    (
      q,
      accepted q begin payload,
      put_piece-eq p begin payload missing (omega arith) fits,
      put_piece-eq q begin payload missing (omega arith) fits',
      omega arith,
      λ j. ground (
        arith,
        get_elem?-splice q.buffer begin payload j fits',
        get_elem?-splice p.buffer begin payload j fits,
      ),
    )
