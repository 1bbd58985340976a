-- ===== src/Swarm/Blocks.antt =====
-- A stream of blocks: piece messages one behind the other.
use dawn_torrent.Base.{
  ◌*◌, subst, ◌/◌, ◌%◌, ok-injective, uint32, uint32-put_uint32, sym, ℕ, zero, suc, ◌+◌, ◌<◌, ◌≤◌,
  ◌^◌, ◌≡◌, refl, ap, ◌∙◌, false, List, [], ◌∷◌, ◌++◌, map, Bytes, Option, ok, length, take, drop,
  length-append, take_all, take-append_length, drop-append_length, ltb, put_uint32, arith,
}
use dawn_torrent.Base.Int.{pos}
use dawn_torrent.Wire.{TorrentMsg, piece}
use dawn_torrent.Wire.Parser.{parse_msg}
use dawn_torrent.Swarm.{handle_msg_stream, no_length}

-- The begin index of a block in its piece, and its bytes.
abbrev pub Block : Type 0
Block = ℕ × Bytes

-- The message by the protocol: its length, the id, the index of the piece, and the block.
abbrev pub block_bytes : ℕ → Block → Bytes
block_bytes index b =
    put_uint32 (9 + length b.1) ++ (7 ∷ []) ++ put_uint32 index ++ put_uint32 b.0 ++ b.1

abbrev pub blocks_bytes : ℕ → List Block → Bytes
blocks_bytes index [] = []
blocks_bytes index (b ∷ bs) = block_bytes index b ++ blocks_bytes index bs

abbrev pub piece_of : Option ℕ → ℕ → Block → TorrentMsg
piece_of peer index b =
    piece (record { id = pos 7; length = 9 + length b.1; peer = peer }) index b.0 (length b.1) b.1

-- From `a` on without a gap, none of them empty or too long for the length's 32 bits.
abbrev pub Consecutive : ℕ → List Block → Type 0
Consecutive a [] = Unit {0}
Consecutive a (b ∷ bs) =
    (b.0 ≡ a)
    × (a < 2 ^ 32)
    × (1 ≤ length b.1)
    × (9 + length b.1 < 2 ^ 32)
    × Consecutive (a + length b.1) bs

parse_msg-block_bytes :
    (index : ℕ) (b : Block) (peer : Option ℕ)
    → index < 2 ^ 32
    → b.0 < 2 ^ 32
    → 9 + length b.1 < 2 ^ 32
    → parse_msg (block_bytes index b) peer ≡ ok (piece_of peer index b)
unfolding parse_msg
parse_msg-block_bytes index b peer hi hb hl = ground (arith, take_all b.1 (length b.1))

stream_frame :
    (fuel h0 h1 h2 h3 : ℕ) (body rest : Bytes) (n : ℕ) (peer : Option ℕ) (msg : TorrentMsg)
    → uint32 (h0 ∷ h1 ∷ h2 ∷ h3 ∷ []) ≡ ok n
    → take n (body ++ rest) ≡ body
    → drop n (body ++ rest) ≡ rest
    → ltb (length (body ++ rest)) n ≡ false
    → parse_msg (h0 ∷ h1 ∷ h2 ∷ h3 ∷ body) peer ≡ ok msg
    → handle_msg_stream (suc fuel) (h0 ∷ h1 ∷ h2 ∷ h3 ∷ (body ++ rest)) peer
      ≡ (msg ∷ (handle_msg_stream fuel rest peer).0, (handle_msg_stream fuel rest peer).1)
unfolding handle_msg_stream
stream_frame fuel h0 h1 h2 h3 body rest n peer msg known cut left whole parsed =
    let value = sym (ok-injective _ n known) in
    let raw : Bytes = h0 ∷ h1 ∷ h2 ∷ h3 ∷ (body ++ rest) in
    let total = h0 * 16777216 + h1 * 65536 + h2 * 256 + h3 in
    let cut' = subst (λ k. take k (body ++ rest) ≡ body) value cut in
    let left' : drop total (drop 4 raw) ≡ rest =
      subst (λ k. drop k (body ++ rest) ≡ rest) value left in
    let whole' : ltb (length (drop 4 raw)) total ≡ false =
      subst (λ k. ltb (length (body ++ rest)) k ≡ false) value whole in
    rw (handle_msg_stream, cut', whole', parsed)
      (λ i. (
        msg ∷ (handle_msg_stream fuel (left' i) peer).0,
        (handle_msg_stream fuel (left' i) peer).1,
      ))

stream_block :
    (fuel index : ℕ) (b : Block) (rest : Bytes) (peer : Option ℕ)
    → index < 2 ^ 32
    → b.0 < 2 ^ 32
    → 9 + length b.1 < 2 ^ 32
    → handle_msg_stream (suc fuel) (block_bytes index b ++ rest) peer ≡ (
      piece_of peer index b ∷ (handle_msg_stream fuel rest peer).0,
      (handle_msg_stream fuel rest peer).1,
    )
unfolding handle_msg_stream
stream_block fuel index b rest peer hi hb hl =
    let n = 9 + length b.1 in
    let body : Bytes = (7 ∷ []) ++ put_uint32 index ++ put_uint32 b.0 ++ b.1 in
    let size : length body ≡ n = omega arith in
    let cut : take n (body ++ rest) ≡ body =
      ap (λ k. take k (body ++ rest)) (sym size) ∙ take-append_length body rest in
    let left : drop n (body ++ rest) ≡ rest =
      ap (λ k. drop k (body ++ rest)) (sym size) ∙ drop-append_length body rest in
    let whole : ltb (length (body ++ rest)) n ≡ false =
      ground (arith, length-append body rest, size) in
    let known : uint32 (put_uint32 n) ≡ ok n = uint32-put_uint32 n hl in
    let parsed : parse_msg (put_uint32 n ++ body) peer ≡ ok (piece_of peer index b) =
      parse_msg-block_bytes index b peer hi hb hl in
    stream_frame fuel (n / 2 ^ 24 % 256) (n / 2 ^ 16 % 256) (n / 2 ^ 8 % 256) (n % 256) body rest n
      peer (piece_of peer index b) known cut left whole parsed

pub handle_msg_stream-blocks :
    (bs : List Block) (fuel index a : ℕ) (peer : Option ℕ)
    → index < 2 ^ 32
    → Consecutive a bs
    → length bs < fuel
    → handle_msg_stream fuel (blocks_bytes index bs) peer
      ≡ (map (piece_of peer index) bs, no_length)
handle_msg_stream-blocks bs zero index a peer hi c enough = absurd (omega arith)
handle_msg_stream-blocks [] (suc fuel) index a peer hi c enough = unfold handle_msg_stream in refl
handle_msg_stream-blocks (b ∷ bs) (suc fuel) index a peer hi (at, low, some_byte, short, c) enough =
    stream_block fuel index b (blocks_bytes index bs) peer hi (omega (arith, at)) short
    ∙ rw (handle_msg_stream-blocks bs fuel index (a + length b.1) peer hi c (omega arith))
