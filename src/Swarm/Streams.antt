-- ===== src/Swarm/Streams.antt =====
-- What a peer's byte stream turns into.
use dawn_torrent.Base.{
  ℕ, zero, suc, ◌+◌, ◌<◌, ◌^◌, ◌≡◌, refl, ◌∙◌, false, List, [], ◌∷◌, ◌++◌, map, Bytes, Option, All,
  length, drop, length-append, take-append_length, ltb, put_uint32, uint32-put_uint32, arith,
}
use dawn_torrent.Base.Int.{pos}
use dawn_torrent.Wire.{TorrentMsg, request}
use dawn_torrent.Wire.Parser.RoundTrip.{request_bytes, parse_msg-request_bytes}
use dawn_torrent.Wire.Parser.Totality.{needed_length, msg_id, panics-parse_msg}
use dawn_torrent.Swarm.{handle_msg_stream, no_length, crashed}

-- A request's piece, begin and block length.
abbrev pub Fields : Type 0
Fields = ℕ × ℕ × ℕ

abbrev pub Fit : Fields → Type 0
Fit f = (f.0 < 2 ^ 32) × (f.1 < 2 ^ 32) × (f.2 < 2 ^ 32)

abbrev pub requests_bytes : List Fields → Bytes
requests_bytes [] = []
requests_bytes (f ∷ fs) = request_bytes f.0 f.1 f.2 ++ requests_bytes fs

abbrev pub request_of : Option ℕ → Fields → TorrentMsg
request_of peer f = request (record { id = pos 6; length = 13; peer = peer }) f.0 f.1 f.2

stream_request :
    (fuel : ℕ) (f : Fields) (rest : Bytes) (peer : Option ℕ)
    → Fit f
    → handle_msg_stream (suc fuel) (request_bytes f.0 f.1 f.2 ++ rest) peer ≡ (
      request_of peer f ∷ (handle_msg_stream fuel rest peer).0,
      (handle_msg_stream fuel rest peer).1,
    )
unfolding handle_msg_stream
stream_request fuel f rest peer fit =
    let long : ltb (length (drop 17 (request_bytes f.0 f.1 f.2)) + 13 + length rest) 13 ≡ false =
      ground arith in
    ground (arith, parse_msg-request_bytes f.0 f.1 f.2 peer fit.0 fit.1 fit.2)

-- Marshalled requests that come one behind the other are delivered as these requests, in order,
-- and the stream ends where its next length is missing.
pub handle_msg_stream-requests :
    (fs : List Fields) (fuel : ℕ) (peer : Option ℕ)
    → All Fit fs
    → length fs < fuel
    → handle_msg_stream fuel (requests_bytes fs) peer ≡ (map (request_of peer) fs, no_length)
handle_msg_stream-requests fs zero peer fit enough = absurd (omega arith)
handle_msg_stream-requests [] (suc fuel) peer fit enough = unfold handle_msg_stream in refl
handle_msg_stream-requests (f ∷ fs) (suc fuel) peer fit enough =
    stream_request fuel f (requests_bytes fs) peer fit.0
    ∙ rw (handle_msg_stream-requests fs fuel peer fit.1 (omega arith))

-- A frame whose length is below what its id needs ends the program, not only the stream.
pub handle_msg_stream_crashes :
    (fuel b : ℕ) (rest more : Bytes) (peer : Option ℕ)
    → length (b ∷ rest) < 2 ^ 32
    → length (b ∷ rest) < needed_length (msg_id b)
    → handle_msg_stream (suc fuel) (put_uint32 (length (b ∷ rest)) ++ ((b ∷ rest) ++ more)) peer
      ≡ ([], crashed)
unfolding handle_msg_stream
handle_msg_stream_crashes fuel b rest more peer fits short =
    let body = b ∷ rest in
    let cut = take-append_length body more in
    ground (
      arith,
      cut,
      panics-parse_msg b rest peer fits,
      uint32-put_uint32 (length body) fits,
      length-append body more,
    )
