-- ===== src/Tracker/Udp/Layout.antt =====
-- Where each field of a datagram stands.
use dawn_torrent.Base.{
  ℕ, ◌+◌, ◌^◌, ◌<◌, ◌≡◌, refl, ap, sym, ◌∙◌, [], ◌++◌, Bytes, ok, length, length-append, slice,
  slice_middle, read_uint32, uint32, uint32-put_uint32, ◌>>=◌, leb, true, put_uint16, put_uint32,
  put_uint64, arith,
}
use mathlib.Core.List.{append_assoc, append-nil}
use dawn_torrent.Tracker.Udp.{
  AnnounceUdpMsg, new_udp_connection_request, new_udp_announce_request,
  parse_udp_connection_response, parse_announce_response, udp_protocol_id,
}

-- A connect request is 16 bytes: the protocol's id, the action 0 and the transaction's id.
pub new_udp_connection_request-eq :
    (t : ℕ)
    → new_udp_connection_request t
      ≡ ok (put_uint64 udp_protocol_id ++ (put_uint32 0 ++ put_uint32 t))
unfolding new_udp_connection_request
new_udp_connection_request-eq t = refl

-- A reply in the protocol's layout is read into its three fields.
pub parse_udp_connection_response-put :
    (action transaction connection : ℕ) (rest : Bytes)
    → action < 2 ^ 32
    → transaction < 2 ^ 32
    → connection < 2 ^ 64
    → parse_udp_connection_response
        (put_uint32 action ++ (put_uint32 transaction ++ (put_uint64 connection ++ rest)))
      ≡ ok (record { action = action; connection_id = connection; transaction_id = transaction })
unfolding parse_udp_connection_response
parse_udp_connection_response-put action transaction connection rest ha ht hc = ground arith

slice_part :
    (whole front xs back : Bytes) (lo hi : ℕ)
    → whole ≡ front ++ (xs ++ back)
    → lo ≡ length front
    → hi ≡ lo + length xs
    → slice whole lo hi ≡ ok xs
slice_part whole front xs back lo hi e at size =
    ap (λ w. slice w lo hi) e ∙ slice_middle front xs back lo hi at size

-- Seven parts of fixed lengths, one behind the other.
fields_layout :
    (c a t h i n q : Bytes)
    → length c ≡ 8
    → length a ≡ 4
    → length t ≡ 4
    → length h ≡ 20
    → length i ≡ 20
    → length n ≡ 40
    → length q ≡ 2
    → let bytes = c ++ (a ++ (t ++ (h ++ (i ++ (n ++ q))))) in
      (length bytes ≡ 98)
      × (slice bytes 0 8 ≡ ok c)
      × (slice bytes 8 12 ≡ ok a)
      × (slice bytes 12 16 ≡ ok t)
      × (slice bytes 16 36 ≡ ok h)
      × (slice bytes 36 56 ≡ ok i)
      × (slice bytes 96 98 ≡ ok q)
fields_layout c a t h i n q hc ha ht hh hi hn hq =
    let bytes = c ++ (a ++ (t ++ (h ++ (i ++ (n ++ q))))) in
    let ca = length-append c a in
    let cat = length-append c (a ++ t) in
    let at = length-append a t in
    let cath = length-append (c ++ (a ++ t)) h in
    let cathi = length-append ((c ++ (a ++ t)) ++ h) i in
    let cathin = length-append (((c ++ (a ++ t)) ++ h) ++ i) n in
    let whole : bytes ≡ ((((c ++ (a ++ t)) ++ h) ++ i) ++ n) ++ (q ++ []) =
      simp (append_assoc, append-nil) in
    (
      ap length whole
          ∙ omega (
            arith,
            cathin,
            cathi,
            cath,
            cat,
            at,
            length-append ((((c ++ (a ++ t)) ++ h) ++ i) ++ n) (q ++ []),
            length-append q [],
          ),
      slice_middle [] c _ 0 8 refl (omega arith),
      slice_middle c a (t ++ (h ++ (i ++ (n ++ q)))) 8 12 (omega arith) (omega arith),
      slice_part bytes (c ++ a) t (h ++ (i ++ (n ++ q))) 12 16 (simp append_assoc)
          (omega (arith, ca)) (omega arith),
      slice_part bytes (c ++ (a ++ t)) h (i ++ (n ++ q)) 16 36 (simp append_assoc)
          (omega (arith, cat, at)) (omega arith),
      slice_part bytes ((c ++ (a ++ t)) ++ h) i (n ++ q) 36 56 (simp append_assoc)
          (omega (arith, cath, cat, at)) (omega arith),
      slice_part bytes ((((c ++ (a ++ t)) ++ h) ++ i) ++ n) q [] 96 98 whole
          (omega (arith, cathin, cathi, cath, cat, at)) (omega arith),
    )

front_assoc :
    (c o t h i rest : Bytes)
    → (c ++ (o ++ (t ++ (h ++ i)))) ++ rest ≡ c ++ (o ++ (t ++ (h ++ (i ++ rest))))
front_assoc c o t h i rest = simp append_assoc

-- Seven numbers of fixed lengths from byte 56 on.
numbers_layout :
    (front d l u e a k w back : Bytes)
    → length front ≡ 56
    → length d ≡ 8
    → length l ≡ 8
    → length u ≡ 8
    → length e ≡ 4
    → length a ≡ 4
    → length k ≡ 4
    → length w ≡ 4
    → let bytes = front ++ ((d ++ (l ++ (u ++ (e ++ (a ++ (k ++ w)))))) ++ back) in
      (slice bytes 56 64 ≡ ok d)
      × (slice bytes 64 72 ≡ ok l)
      × (slice bytes 72 80 ≡ ok u)
      × (slice bytes 80 84 ≡ ok e)
      × (slice bytes 84 88 ≡ ok a)
      × (slice bytes 88 92 ≡ ok k)
      × (slice bytes 92 96 ≡ ok w)
numbers_layout front d l u e a k w back hf hd hl hu he ha hk hw =
    let bytes = front ++ ((d ++ (l ++ (u ++ (e ++ (a ++ (k ++ w)))))) ++ back) in
    let f1 = length-append front d in
    let f2 = length-append (front ++ d) l in
    let f3 = length-append ((front ++ d) ++ l) u in
    let f4 = length-append (((front ++ d) ++ l) ++ u) e in
    let f5 = length-append ((((front ++ d) ++ l) ++ u) ++ e) a in
    let f6 = length-append (((((front ++ d) ++ l) ++ u) ++ e) ++ a) k in
    (
      slice_part bytes front d (l ++ (u ++ (e ++ (a ++ (k ++ (w ++ back)))))) 56 64
          (simp append_assoc) (omega arith) (omega arith),
      slice_part bytes (front ++ d) l (u ++ (e ++ (a ++ (k ++ (w ++ back))))) 64 72
          (simp append_assoc) (omega (arith, f1)) (omega arith),
      slice_part bytes ((front ++ d) ++ l) u (e ++ (a ++ (k ++ (w ++ back)))) 72 80
          (simp append_assoc) (omega (arith, f1, f2)) (omega arith),
      slice_part bytes (((front ++ d) ++ l) ++ u) e (a ++ (k ++ (w ++ back))) 80 84
          (simp append_assoc) (omega (arith, f1, f2, f3)) (omega arith),
      slice_part bytes ((((front ++ d) ++ l) ++ u) ++ e) a (k ++ (w ++ back)) 84 88
          (simp append_assoc) (omega (arith, f1, f2, f3, f4)) (omega arith),
      slice_part bytes (((((front ++ d) ++ l) ++ u) ++ e) ++ a) k (w ++ back) 88 92
          (simp append_assoc) (omega (arith, f1, f2, f3, f4, f5)) (omega arith),
      slice_part bytes ((((((front ++ d) ++ l) ++ u) ++ e) ++ a) ++ k) w back 92 96
          (simp append_assoc) (omega (arith, f1, f2, f3, f4, f5, f6)) (omega arith),
    )

-- The datagram of an announce request: each field of the message at its place.
pub record HasLayout (msg : AnnounceUdpMsg) (bytes : Bytes) : Type 0 where
  pub size : length bytes ≡ 98
  pub connection_id : slice bytes 0 8 ≡ ok (put_uint64 msg.base.connection_id)
  pub action : slice bytes 8 12 ≡ ok (put_uint32 msg.base.action)
  pub transaction_id : slice bytes 12 16 ≡ ok (put_uint32 msg.base.transaction_id)
  pub infohash : slice bytes 16 36 ≡ ok msg.infohash
  pub peer_id : slice bytes 36 56 ≡ ok msg.peer_id
  pub downloaded : slice bytes 56 64 ≡ ok (put_uint64 msg.downloaded)
  pub left : slice bytes 64 72 ≡ ok (put_uint64 msg.left)
  pub uploaded : slice bytes 72 80 ≡ ok (put_uint64 msg.uploaded)
  pub event : slice bytes 80 84 ≡ ok (put_uint32 msg.event)
  pub ip : slice bytes 84 88 ≡ ok (put_uint32 msg.ip)
  pub key : slice bytes 88 92 ≡ ok (put_uint32 msg.key)
  pub num_want : slice bytes 92 96 ≡ ok (put_uint32 msg.num_want)
  pub port : slice bytes 96 98 ≡ ok (put_uint16 msg.port)

-- The announce request for a 20-byte info hash from a 20-byte peer id is 98 bytes long and holds the
-- thirteen fields of the message, each in its width and at its place: the connection id in bytes 0 to
-- 7, the action in 8 to 11, the transaction id in 12 to 15, the hash in 16 to 35, the peer id in 36 to
-- 55, the bytes downloaded, left and uploaded from 56, 64 and 72 on, the event, the address, the key
-- and the number of peers wanted from 80, 84, 88 and 92 on, and the port in the last two.
pub new_udp_announce_request_layout :
    (msg : AnnounceUdpMsg)
    → length msg.infohash ≡ 20
    → length msg.peer_id ≡ 20
    → (bytes : Bytes) × (new_udp_announce_request msg ≡ ok bytes) × HasLayout msg bytes
unfolding new_udp_announce_request
new_udp_announce_request_layout msg hash id =
    let d = put_uint64 msg.downloaded in
    let l = put_uint64 msg.left in
    let u = put_uint64 msg.uploaded in
    let e = put_uint32 msg.event in
    let a = put_uint32 msg.ip in
    let k = put_uint32 msg.key in
    let w = put_uint32 msg.num_want in
    let numbers = d ++ (l ++ (u ++ (e ++ (a ++ (k ++ w))))) in
    let c = put_uint64 msg.base.connection_id in
    let o = put_uint32 msg.base.action in
    let t = put_uint32 msg.base.transaction_id in
    let q = put_uint16 msg.port in
    let (size, connection, action, transaction, infohash, peer, port) =
      fields_layout c o t msg.infohash msg.peer_id numbers q refl refl refl hash id refl refl in
    let front = c ++ (o ++ (t ++ (msg.infohash ++ msg.peer_id))) in
    let width : length front ≡ 56 = omega (arith, length-append msg.infohash msg.peer_id) in
    let same : front ++ (numbers ++ q)
        ≡ c ++ (o ++ (t ++ (msg.infohash ++ (msg.peer_id ++ (numbers ++ q))))) =
      front_assoc c o t msg.infohash msg.peer_id (numbers ++ q) in
    let (nd, nl, nu, ne, na, nk, nw) =
      numbers_layout front d l u e a k w q width refl refl refl refl refl refl refl in
    (
      _,
      refl,
      record {
        size = size;
        connection_id = connection;
        action = action;
        transaction_id = transaction;
        infohash = infohash;
        peer_id = peer;
        downloaded = ap (λ b. slice b 56 64) (sym same) ∙ nd;
        left = ap (λ b. slice b 64 72) (sym same) ∙ nl;
        uploaded = ap (λ b. slice b 72 80) (sym same) ∙ nu;
        event = ap (λ b. slice b 80 84) (sym same) ∙ ne;
        ip = ap (λ b. slice b 84 88) (sym same) ∙ na;
        key = ap (λ b. slice b 88 92) (sym same) ∙ nk;
        num_want = ap (λ b. slice b 92 96) (sym same) ∙ nw;
        port = port;
      },
    )

read_part :
    (whole front back : Bytes) (n lo : ℕ)
    → whole ≡ front ++ (put_uint32 n ++ back)
    → lo ≡ length front
    → n < 2 ^ 32
    → read_uint32 whole lo ≡ ok n
read_part whole front back n lo e at fits =
    ap (λ r. r >>= uint32) (slice_part whole front (put_uint32 n) back lo (lo + 4) e at refl)
    ∙ uint32-put_uint32 n fits

parse_fields :
    (raw addresses : Bytes) (size action transaction interval leechers seeders : ℕ)
    → read_uint32 raw 0 ≡ ok action
    → read_uint32 raw 4 ≡ ok transaction
    → read_uint32 raw 8 ≡ ok interval
    → read_uint32 raw 12 ≡ ok leechers
    → read_uint32 raw 16 ≡ ok seeders
    → slice raw 26 size ≡ ok addresses
    → leb 26 size ≡ true
    → parse_announce_response raw size
      ≡ ok (record {
        base = record { action = action; connection_id = 0; transaction_id = transaction };
        interval = interval;
        n_leechers = leechers;
        n_seeders = seeders;
        peers_addresses = addresses;
      })
unfolding parse_announce_response
parse_fields raw addresses size action transaction interval leechers seeders a t i l s cut big =
    rw (a, t, i, l, s, cut, big)

-- Of a reply in the protocol's layout, with the addresses from byte 20 on, the parser keeps all
-- fields, and all the addresses but the first.
pub parse_announce_response_skips :
    (action transaction interval leechers seeders : ℕ) (first addresses padding : Bytes)
    → length first ≡ 6
    → action < 2 ^ 32
    → transaction < 2 ^ 32
    → interval < 2 ^ 32
    → leechers < 2 ^ 32
    → seeders < 2 ^ 32
    → parse_announce_response
        (put_uint32 action
          ++ (put_uint32 transaction
              ++ (put_uint32 interval
                  ++ (put_uint32 leechers
                      ++ (put_uint32 seeders ++ (first ++ (addresses ++ padding)))))))
        (20 + length first + length addresses)
      ≡ ok (record {
        base = record { action = action; connection_id = 0; transaction_id = transaction };
        interval = interval;
        n_leechers = leechers;
        n_seeders = seeders;
        peers_addresses = addresses;
      })
unfolding parse_announce_response
parse_announce_response_skips action transaction interval leechers seeders first addresses padding
      size ha ht hi hl hs =
    let header =
      put_uint32 action
      ++ (put_uint32 transaction
          ++ (put_uint32 interval ++ (put_uint32 leechers ++ put_uint32 seeders))) in
    let raw = header ++ (first ++ (addresses ++ padding)) in
    let cut : slice raw 26 (20 + length first + length addresses) ≡ ok addresses =
      slice_part raw (header ++ first) addresses padding 26 _ (simp append_assoc)
        (omega (arith, length-append header first)) (omega arith) in
    let a = put_uint32 action in
    let t = put_uint32 transaction in
    let i = put_uint32 interval in
    let l = put_uint32 leechers in
    let peers = first ++ (addresses ++ padding) in
    parse_fields raw addresses (20 + length first + length addresses) action transaction interval
      leechers seeders (read_part raw [] _ action 0 refl refl ha)
      (read_part raw a _ transaction 4 refl refl ht)
      (read_part raw (a ++ t) _ interval 8 refl refl hi)
      (read_part raw (a ++ (t ++ i)) _ leechers 12 refl refl hl)
      (read_part raw (a ++ (t ++ (i ++ l))) peers seeders 16 refl refl hs) cut (ground arith)
