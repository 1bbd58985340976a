-- ===== src/Wire/Parser/RoundTrip.antt =====
-- A request that is marshalled and parsed again.
use dawn_torrent.Base.{
  ℕ, ◌<◌, ◌^◌, ◌≡◌, refl, ap, ◌∙◌, ◌>>=◌, Option, [], ◌∷◌, ◌++◌, Bytes, ok, put_uint32, arith,
}
use dawn_torrent.Base.Int.{pos}
use dawn_torrent.Wire.{Header, marshal, request}
use dawn_torrent.Wire.Parser.{parse_msg}

-- The bytes of a request.
abbrev pub request_bytes : ℕ → ℕ → ℕ → Bytes
request_bytes index begin block =
    put_uint32 13 ++ (6 ∷ []) ++ put_uint32 index ++ put_uint32 begin ++ put_uint32 block

marshal-request :
    (h : Header) (index begin block : ℕ)
    → marshal (request h index begin block) ≡ ok (request_bytes index begin block)
unfolding marshal
marshal-request h index begin block = refl

pub parse_msg-request_bytes :
    (index begin block : ℕ) (peer : Option ℕ)
    → index < 2 ^ 32
    → begin < 2 ^ 32
    → block < 2 ^ 32
    → parse_msg (request_bytes index begin block) peer
      ≡ ok (request (record { id = pos 6; length = 13; peer = peer }) index begin block)
unfolding parse_msg
parse_msg-request_bytes index begin block peer hi hb hl = ground arith

-- The bytes of a marshalled request with 32-bit fields are parsed into the same request, from the
-- peer that sent it.
pub parse_msg-marshal :
    (h : Header) (index begin block : ℕ) (peer : Option ℕ)
    → index < 2 ^ 32
    → begin < 2 ^ 32
    → block < 2 ^ 32
    → (marshal (request h index begin block) >>= λ raw. parse_msg raw peer)
      ≡ ok (request (record { id = pos 6; length = 13; peer = peer }) index begin block)
parse_msg-marshal h index begin block peer hi hb hl =
    ap (λ r. r >>= λ raw. parse_msg raw peer) (marshal-request h index begin block)
    ∙ parse_msg-request_bytes index begin block peer hi hb hl
