-- ===== src/Handlers/Interest.antt =====
-- Whether a peer is known to be interested.
use dawn_torrent.Base.{
  bind_ok, ok-injective, ℕ, zero, suc, ◌≡◌, refl, sym, ap, ◌+◌, ◌∙◌, false, List, [], ◌∷◌, Option,
  none, some, Result, ok, ◌>>=◌, or_panic, All, length, get_elem?, set, subst, arith,
}
use dawn_torrent.Wire.{
  TorrentMsg, Header, plain, choke, unchoke, interested, uninterested, have, bitfield, request,
  cancel, piece,
}
use dawn_torrent.Peer.{Peer, update_bitfield, set_bit_field}
use dawn_torrent.Piece.{Piece, update_availability, increment_availability}
use dawn_torrent.Downloader.Queue.{DownloadQueue}
use dawn_torrent.Downloader.{
  Downloader, priority_loop, fix_at, fix_at, put_block, update_piece_priority,
}
use dawn_torrent.Handlers.{Session, sender, change_peer, change_bitfield, handle_msg}

-- No peer counts as interested.
abbrev pub NobodyIsInterested : Session → Type 0
NobodyIsInterested s = All (λ p. p.is_interested ≡ false) s.peers

nobody-set :
    (peers : List Peer) (i : ℕ) (p : Peer)
    → All (λ q. q.is_interested ≡ false) peers
    → p.is_interested ≡ false
    → All (λ q. q.is_interested ≡ false) (set peers i p)
nobody-set [] i p h k = h
nobody-set (x ∷ xs) zero p h k = (k, h.1)
nobody-set (x ∷ xs) (suc i) p h k = (h.0, nobody-set xs i p h.1 k)

nobody-get :
    (peers : List Peer) (i : ℕ) (p : Peer)
    → All (λ q. q.is_interested ≡ false) peers
    → get_elem? peers i ≡ some p
    → p.is_interested ≡ false
nobody-get [] i p h e = cc
nobody-get (x ∷ xs) zero p h e =
    let same : x ≡ p = ground arith in subst (λ q. q.is_interested ≡ false) same h.0
nobody-get (x ∷ xs) (suc i) p h e = nobody-get xs i p h.1 e

availability-interest :
    (p : Piece) (peer : Peer)
    → (update_availability p increment_availability peer).1.is_interested ≡ peer.is_interested
unfolding update_availability
availability-interest p peer = ground arith

or_panic_ok : {A : Type 0} (o : Option A) (a : A) → or_panic o ≡ ok a → o ≡ some a
or_panic_ok (some b) a e = ap some (ok-injective b a e)
or_panic_ok none a e = absurd (ground (arith, e))

sender_known :
    (h : Header) (s : Session) (i : ℕ) (p : Peer)
    → sender h s ≡ ok (i, p)
    → get_elem? s.peers i ≡ some p
unfolding sender
sender_known h s i p e =
    let peer_at = λ (k : ℕ). or_panic (get_elem? s.peers k) in
    let (j, known, e') = bind_ok (or_panic h.peer) (λ k. peer_at k >>= λ x. ok (k, x)) (i, p) e in
    let (q, there, e'') = bind_ok (peer_at j) (λ x. ok (j, x)) (i, p) e' in
    let same : ◌≡◌ {A = ℕ × Peer} (j, q) (i, p) = ok-injective _ _ e'' in
    subst (λ (r : ℕ × Peer). get_elem? s.peers r.0 ≡ some r.1) same (or_panic_ok _ q there)

priority_loop-interest :
    (left i : ℕ) (peer after : Peer) (q r : DownloadQueue)
    → priority_loop left i peer q ≡ ok (after, r)
    → after.is_interested ≡ peer.is_interested
unfolding priority_loop
priority_loop-interest zero i peer after q r e =
    let same : peer ≡ after = ground (arith, e) in ap (λ p. p.is_interested) (sym same)
priority_loop-interest (suc left) i peer after q r e =
    let changed = λ (x : Piece). update_availability x increment_availability peer in
    let fixed =
      λ (x : Piece). fix_at x.queue_index (record q { pieces = set q.pieces i (changed x).0 }) in
    let further = λ (x : Piece) (y : DownloadQueue). priority_loop left (i + 1) (changed x).1 y in
    let (found, at, e') =
      bind_ok (or_panic (get_elem? q.pieces i)) (λ x. fixed x >>= further x) (after, r) e in
    let (q', done, e'') = bind_ok (fixed found) (further found) (after, r) e' in
    priority_loop-interest left (i + 1) (update_availability found increment_availability peer).1
      after q' r e''
    ∙ availability-interest found peer

bitfield-interest : (p : Peer) (i : ℕ) → (update_bitfield p i).is_interested ≡ p.is_interested
unfolding update_bitfield
bitfield-interest p i = ground arith

change_bitfield-nobody :
    (h : Header) (f : Peer → Peer) (s t : Session)
    → ((p : Peer) → (f p).is_interested ≡ p.is_interested)
    → NobodyIsInterested s
    → change_bitfield h f s ≡ ok t
    → NobodyIsInterested t
unfolding change_bitfield sender update_piece_priority
change_bitfield-nobody h f s t kept none_is e =
    let d = s.downloader in
    let update : Peer → Result (Peer × Downloader) = λ x.
      (priority_loop (length d.queue.pieces) 0 x d.queue >>= λ v.
      ok (v.0, record d { queue = v.1 })) in
    let store = λ (i : ℕ) (u : Peer × Downloader).
      ok (record { peers = set s.peers i u.0; downloader = u.1 }) in
    let (r, sent, e') = bind_ok (sender h s) (λ r. update (f r.1) >>= store r.0) t e in
    let (u, updated, e'') = bind_ok (update (f r.1)) (store r.0) t e' in
    let (v, looped, e3) =
      bind_ok (priority_loop (length d.queue.pieces) 0 (f r.1) d.queue)
        (λ v. ok (v.0, record d { queue = v.1 })) u updated in
    let was = nobody-get s.peers r.0 r.1 none_is (sender_known h s r.0 r.1 sent) in
    let same_peer : v.0 ≡ u.0 = ap (λ x. x.0) (ok-injective _ _ e3) in
    let quiet : v.0.is_interested ≡ false =
      priority_loop-interest _ 0 (f r.1) v.0 s.downloader.queue v.1 looped ∙ kept r.1 ∙ was in
    let stays = nobody-set s.peers r.0 v.0 none_is quiet in
    subst (λ x. All (λ p. p.is_interested ≡ false) x)
      (ap (set s.peers r.0) same_peer ∙ ap (λ x. x.peers) (ok-injective _ _ e'')) stays

change_peer-nobody :
    (h : Header) (f : Peer → Peer) (s t : Session)
    → ((p : Peer) → p.is_interested ≡ false → (f p).is_interested ≡ false)
    → NobodyIsInterested s
    → change_peer h f s ≡ ok t
    → NobodyIsInterested t
unfolding change_peer sender
change_peer-nobody h f s t kept none_is e =
    let (r, sent, e') =
      bind_ok (sender h s) (λ r. ok (record s { peers = set s.peers r.0 (f r.1) })) t e in
    let was = nobody-get s.peers r.0 r.1 none_is (sender_known h s r.0 r.1 sent) in
    subst NobodyIsInterested (ok-injective _ _ e')
      (nobody-set s.peers r.0 (f r.1) none_is (kept r.1 was))

-- Whatever message a handler takes without a panic: if no peer counted as interested, none does
-- afterwards, also where the message says that its peer is.
pub handle_msg-NobodyIsInterested :
    (msg : TorrentMsg) (s t : Session)
    → NobodyIsInterested s
    → handle_msg msg s ≡ ok t
    → NobodyIsInterested t
unfolding handle_msg
handle_msg-NobodyIsInterested (plain g) s t h e =
    let (r, sent, e') = bind_ok (sender g s) (λ r. ok s) t e in
    subst NobodyIsInterested (ok-injective s t e') h
handle_msg-NobodyIsInterested (choke g) s t h e = change_peer-nobody g _ s t (λ p k. k) h e
handle_msg-NobodyIsInterested (unchoke g) s t h e = change_peer-nobody g _ s t (λ p k. k) h e
handle_msg-NobodyIsInterested (interested g) s t h e = change_peer-nobody g _ s t (λ p k. refl) h e
handle_msg-NobodyIsInterested (uninterested g) s t h e =
    change_peer-nobody g _ s t (λ p k. refl) h e
handle_msg-NobodyIsInterested (have g i) s t h e =
    change_bitfield-nobody g (λ p. update_bitfield p i) s t (λ p. bitfield-interest p i) h e
handle_msg-NobodyIsInterested (bitfield g b n) s t h e =
    change_bitfield-nobody g (λ p. set_bit_field p b) s t (λ p. refl) h e
handle_msg-NobodyIsInterested (request g i b n) s t h e =
    subst NobodyIsInterested (ok-injective s t e) h
handle_msg-NobodyIsInterested (cancel g i b n) s t h e =
    subst NobodyIsInterested (ok-injective s t e) h
handle_msg-NobodyIsInterested (piece g i b n d) s t h e =
    let (u, stored, e') =
      bind_ok (put_block i b d s.downloader) (λ x. ok (record s { downloader = x })) t e in
    subst NobodyIsInterested (ok-injective _ t e') h
