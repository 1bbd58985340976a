-- ===== src/Tracker/Announcer/Listing.antt =====
-- core/tracker/scrapper.go: the new announcer, and its trackers for the user interface, which are
-- kept once they have been listed. `url.Parse` and a URL's `String` are parameters.
use dawn_torrent.Base.{
  ℕ, List, [], ◌∷◌, ◌++◌, Bytes, Option, none, some, false, true, Result, ok, err, panic, ◌>>=◌,
  could_not_parse, map,
}
use dawn_torrent.Tracker.Announcer.{
  Url, Strategy, Announcer, RequestState, initial_request, recurring_request, detached_request,
  udp_tracker, set_tracker_strategy, cancel, start_scrapper, fire,
}

-- "udp://tracker.opentrackr.org:1337".
abbrev pub first_tracker : Bytes
first_tracker =
    b'u' ∷ b'd' ∷ b'p' ∷ b':' ∷ b'/' ∷ b'/' ∷ b't' ∷ b'r' ∷ b'a' ∷ b'c' ∷ b'k' ∷ b'e' ∷ b'r' ∷ b'.'
    ∷ b'o' ∷ b'p' ∷ b'e' ∷ b'n' ∷ b't' ∷ b'r' ∷ b'a' ∷ b'c' ∷ b'k' ∷ b'r' ∷ b'.' ∷ b'o' ∷ b'r'
    ∷ b'g' ∷ b':' ∷ b'1' ∷ b'3' ∷ b'3' ∷ b'7' ∷ []

-- The announcer before its strategy is set: that is nil, and its timer calls nothing.
abbrev pub literal : Url → List Url → Announcer
literal url urls = record {
  state = initial_request;
  main_tracker_url = url;
  tracker_urls = urls;
  interval = 0;
  timer_armed = false;
  strategy = udp_tracker;
  serialized_state = none;
}

module _ (parse : Bytes → Option Url) where
  -- The URLs of the announce list, `none` where one cannot be parsed.
  unfoldable pub parse_all : List Bytes → Option (List Url)
  parse_all [] = some []
  parse_all (text ∷ texts) =
      let later = parse_all texts in
      elim (parse text) [
        | none ↦ none
        | some url ↦ elim later [ none ↦ none | some urls ↦ some (url ∷ urls) ]
      ]

  -- `NewAnnouncer`, which makes no use of the torrent's announce URL. A URL of the list that cannot be parsed ends the process.
  unfoldable pub new_announcer : Bytes → List Bytes → Result Announcer
  unfolding parse_all set_tracker_strategy
  new_announcer announcer_url announce_list = elim (parse first_tracker) [
    | none ↦ err could_not_parse
    | some url ↦ elim (parse_all announce_list) [
      | none ↦ panic
      | some urls ↦ ok (set_tracker_strategy (literal url urls) url)
    ]
  ]

reset_in : RequestState → Announcer → Announcer
reset_in initial_request a = a
reset_in detached_request a = a
reset_in recurring_request a = record a { timer_armed = true }

unfoldable pub reset_tracker : Announcer → Announcer
unfolding reset_in
reset_tracker a = reset_in a.state a

unfoldable pub stop_tracker : Announcer → Announcer
unfolding cancel
stop_tracker a = cancel a

unfoldable pub serialize : (Url → Bytes) → Announcer → List Bytes × Announcer
serialize to_text a = elim a.serialized_state [
  | some trackers ↦ (trackers, a)
  | none ↦
      let trackers = map to_text a.tracker_urls in
      (trackers, record a { serialized_state = some trackers })
]

-- What is done with an announcer: the start and the timer's callback with the answers of the trackers
-- at that time, a stop, a reset, and the question for its trackers.
pub data Use : Type 0 where
  starts fires : (Strategy → Url → Result ℕ) → Use
  stops resets asks : Use

-- One use: the lists that were asked for, and the announcer.
unfoldable pub apply : (Url → Bytes) → Use → Announcer → Result (List (List Bytes) × Announcer)
unfolding serialize stop_tracker reset_tracker start_scrapper fire
apply to_text (starts respond) a = start_scrapper respond a >>= λ b. ok ([], b)
apply to_text (fires respond) a = fire respond a >>= λ b. ok ([], b)
apply to_text stops a = ok ([], stop_tracker a)
apply to_text resets a = ok ([], reset_tracker a)
apply to_text asks a = let r = serialize to_text a in ok (r.0 ∷ [], r.1)

unfoldable pub apply_all :
    (Url → Bytes) → List Use → Announcer → Result (List (List Bytes) × Announcer)
unfolding apply
apply_all to_text [] a = ok ([], a)
apply_all to_text (use' ∷ uses) a = do
  first ← apply to_text use' a
  later ← apply_all to_text uses first.1
  ok (first.0 ++ later.0, later.1)
