-- ===== src/Api.antt =====
-- api/app.go and api/server.go: the server's requests, and what they do to the torrents. A stream to a
-- subscriber is a number, and so is the control as a subscriber of a manager.
pub mod Serving
pub mod Commands
use dawn_torrent.Base.{
  ℕ, Bool, List, [], ◌∷◌, ◌++◌, Bytes, Option, none, some, Result, ok, err, panic, ◌>>=◌,
  equal_bytes, if◌then◌else◌,
}
use dawn_torrent.Torrent.{Codec}
use dawn_torrent.Tracker.Announcer.{Url}
use dawn_torrent.Manager.{start_torrent, stop_torrent}
use dawn_torrent.Manager.Signals.{set_state}
use dawn_torrent.Manager.Assembly.{
  TorrentManager, TorrentState, new_torrent_manager, subscribe_to_state_change,
}

-- A nil map is `none`.
pub record Control : Type 0 where
  pub torrents : Option (List (Bytes × TorrentManager))
  pub subscribers : List ℕ

-- `CommandServer{}`, which `StartServer` registers.
abbrev pub new_control : Control
new_control = record { torrents = none; subscribers = [] }

-- The states that are sent, each with its stream; a failing stream ends the process by `log.Fatal`.
send_states : (ℕ → Bool) → TorrentState → List ℕ → Result (List (ℕ × TorrentState))
send_states fails state [] = ok []
send_states fails state (stream ∷ streams) =
    let later = send_states fails state streams >>= λ rest. ok ((stream, state) ∷ rest) in
    if fails stream then panic else later

unfoldable pub update_state : (ℕ → Bool) → TorrentState → Control → Result (List (ℕ × TorrentState))
unfolding send_states
update_state fails state c = send_states fails state c.subscribers

-- The number of the control among the subscribers of a manager.
abbrev pub control_number : ℕ
control_number = 0

put_torrent : Bytes → TorrentManager → List (Bytes × TorrentManager) → List (Bytes × TorrentManager)
put_torrent id m [] = (id, m) ∷ []
put_torrent id m ((k, n) ∷ rest) =
    if equal_bytes k id then (id, m) ∷ rest else (k, n) ∷ put_torrent id m rest

-- An assignment to a nil map panics.
register : TorrentManager → Option (List (Bytes × TorrentManager)) → Control → Result Control
unfolding put_torrent subscribe_to_state_change
register m none c = panic
register m (some ts) c = ok (record c {
  torrents = some (put_torrent m.id (subscribe_to_state_change control_number m) ts);
})

find_torrent : Bytes → List (Bytes × TorrentManager) → Option TorrentManager
find_torrent id [] = none
find_torrent id ((k, m) ∷ rest) = if equal_bytes k id then some m else find_torrent id rest

torrent_in : Bytes → Option (List (Bytes × TorrentManager)) → Option TorrentManager
unfolding find_torrent
torrent_in id none = none
torrent_in id (some ts) = find_torrent id ts

-- `SetState` on a torrent's manager: a nil manager panics, and `none` waits for the channel.
signal_torrent : ℕ → Bytes → Control → Option (Result Control)
unfolding torrent_in put_torrent set_state
signal_torrent signal id c = elim (torrent_in id c.torrents) [
  | none ↦ some panic
  | some m ↦ elim (set_state signal m.desk) [
    | none ↦ none
    | some r ↦ some (
        r >>= λ d. elim c.torrents [
          | none ↦ panic
          | some ts ↦ ok (record c { torrents = some (put_torrent id (record m { desk = d }) ts) })
        ])
  ]
]

unfoldable pub start : Bytes → Control → Option (Result Control)
unfolding signal_torrent
start id c = signal_torrent start_torrent id c

unfoldable pub stop : Bytes → Control → Option (Result Control)
unfolding signal_torrent
stop id c = signal_torrent stop_torrent id c

-- The receiver is a copy, and the control keeps the subscribers that it had.
unfoldable pub subscribe_to_torrent_state : ℕ → Control → Control
subscribe_to_torrent_state stream c =
    let copy = record c { subscribers = c.subscribers ++ (stream ∷ []) } in c

-- What a command gives as its `interface{}`.
pub data Answer : Type 0 where
  nil error_value : Answer
  state_value : TorrentState → Answer

-- The assertion of the type `*TorrentState`.
unfoldable pub as_torrent_state : Answer → Result TorrentState
as_torrent_state nil = panic
as_torrent_state error_value = panic
as_torrent_state (state_value s) = ok s

pub data Request : Type 0 where
  add_torrent : Bytes → Request
  subscribe : ℕ → Request
  remove_torrent control_torrent : Request

pub data Reply : Type 0 where
  state : TorrentState → Reply
  subscribed unimplemented : Reply

-- `read` gives the content of the file at a path.
module _ (codec : Codec) (parse : Bytes → Option Url) (read : Bytes → Option Bytes) where
  -- `createNewTorrent`.
  unfoldable pub create_torrent_manager : Bytes → Control → Result Control
  unfolding register new_torrent_manager
  create_torrent_manager path c =
      new_torrent_manager codec parse (read path) >>= λ m. register m c.torrents c

  -- The command of `AddTorrent`. Its second result is not looked at.
  exec : Result Control → Control → Result (Answer × Control)
  exec (ok c') c = ok (error_value, c')
  exec (err e) c = ok (nil, c)
  exec panic c = panic

  unfoldable pub serve_request : Request → Control → Result (Reply × Control)
  unfolding create_torrent_manager exec as_torrent_state subscribe_to_torrent_state
  serve_request (add_torrent path) c = do
    answer ← exec (create_torrent_manager path c) c
    s ← as_torrent_state answer.0
    ok (state s, answer.1)
  serve_request (subscribe stream) c = ok (subscribed, subscribe_to_torrent_state stream c)
  serve_request remove_torrent c = ok (unimplemented, c)
  serve_request control_torrent c = ok (unimplemented, c)

  unfoldable pub serve : List Request → Control → Result (List Reply × Control)
  unfolding serve_request
  serve [] c = ok ([], c)
  serve (r ∷ rs) c = do
    first ← serve_request r c
    later ← serve rs first.1
    ok (first.0 ∷ later.0, later.1)
