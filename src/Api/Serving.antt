-- ===== src/Api/Serving.antt =====
-- What the server's requests come to.
use dawn_torrent.Base.{
  ◌≡◌, refl, map, true, if◌then◌else◌, Bool, false, List, [], ◌∷◌, Bytes, Option, Result, ok, err,
  panic, ◌>>=◌, arith,
}
use dawn_torrent.Torrent.{Codec}
use dawn_torrent.Tracker.Announcer.{Url}
use dawn_torrent.Api.{
  Control, Request, add_torrent, subscribe, remove_torrent, control_torrent, Reply, state,
  subscribed, unimplemented, subscribe_to_torrent_state, create_torrent_manager, exec,
  serve_request, serve, as_torrent_state,
}

-- Whether a torrent is to be added, and what the other requests are answered.
abbrev pub adds : List Request → Bool
adds [] = false
adds (add_torrent path ∷ rs) = true
adds (subscribe stream ∷ rs) = adds rs
adds (remove_torrent ∷ rs) = adds rs
adds (control_torrent ∷ rs) = adds rs

abbrev pub reply_of : Request → Reply
reply_of (add_torrent path) = unimplemented
reply_of (subscribe stream) = subscribed
reply_of remove_torrent = unimplemented
reply_of control_torrent = unimplemented

module _ (codec : Codec) (parse : Bytes → Option Url) (read : Bytes → Option Bytes) where
  passes :
      (reply : Reply) (rs : List Request) (c : Control)
      → ◌>>=◌ {A = List Reply × Control} {B = List Reply × Control}
          (if adds rs then panic else ok (map reply_of rs, c))
          (λ later. ok (reply ∷ later.0, later.1))
        ≡ (if adds rs then panic else ok (reply ∷ map reply_of rs, c))
  passes reply rs c = ground arith

  add_panics :
      (path : Bytes) (c : Control) → serve_request codec parse read (add_torrent path) c ≡ panic
  unfolding serve_request
  add_panics path c = after (create_torrent_manager codec parse read path c)
    where
      after :
          (r : Result Control)
          → ◌≡◌ {A = Result (Reply × Control)}
              (exec codec parse read r c >>= λ answer.
                as_torrent_state answer.0 >>= λ s. ok (state s, answer.1))
              panic
      after (ok c') = refl
      after (err e) = refl
      after panic = refl

  -- Any series of requests to the server, in any state of its control: if one of them adds a torrent
  -- then the server panics, whatever the torrent file is. Otherwise each request is answered and the
  -- control is as it was before, so that a subscription leaves nothing behind.
  pub serve_all :
      (requests : List Request) (c : Control)
      → serve codec parse read requests c
        ≡ (if adds requests then panic else ok (map reply_of requests, c))
  unfolding serve serve_request subscribe_to_torrent_state
  serve_all [] c = refl
  serve_all (add_torrent path ∷ rs) c = rw (add_panics path c) refl
  serve_all (subscribe stream ∷ rs) c = rw (serve_all rs c) (passes subscribed rs c)
  serve_all (remove_torrent ∷ rs) c = rw (serve_all rs c) (passes unimplemented rs c)
  serve_all (control_torrent ∷ rs) c = rw (serve_all rs c) (passes unimplemented rs c)
