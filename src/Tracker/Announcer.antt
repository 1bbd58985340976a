-- ===== src/Tracker/Announcer.antt =====
-- core/tracker/scrapper.go and the outcome of core/tracker/scrape_strategy.go's requests.
-- What a tracker answers is a parameter: the interval in seconds, or an error value. Running timers
-- enter as events: the environment calls `fire` when the armed timer runs out.
pub mod Rounds
pub mod Listing
use dawn_torrent.Base.{
  ℕ, Bool, true, false, ◌||◌, List, [], ◌∷◌, Bytes, Error, Result, ok, err, panic, Option, none,
  some, deadline_exceeded, no_tracker, blocked, io_failed, could_not_parse, map, if◌then◌else◌,
  equal_bytes,
}

pub record Url : Type 0 where
  pub scheme : Bytes
  pub address : Bytes

pub data Strategy : Type 0 where
  http_tracker udp_tracker : Strategy

-- `trackerRequestState`; a state that `cancel` leaves has no announcer.
pub data RequestState : Type 0 where
  initial_request recurring_request detached_request : RequestState

pub record Announcer : Type 0 where
  pub state : RequestState
  pub main_tracker_url : Url
  pub tracker_urls : List Url
  pub interval : ℕ
  pub timer_armed : Bool
  pub strategy : Strategy
  pub serialized_state : Option (List Bytes)

-- "http" and "https".
abbrev pub http_name : Bytes
http_name = b'h' ∷ b't' ∷ b't' ∷ b'p' ∷ []

abbrev pub https_name : Bytes
https_name = b'h' ∷ b't' ∷ b't' ∷ b'p' ∷ b's' ∷ []

cancel_in : RequestState → Announcer → Announcer
cancel_in initial_request a = a
cancel_in detached_request a = a
cancel_in recurring_request a = record a { timer_armed = false; state = detached_request }

unfoldable pub cancel : Announcer → Announcer
unfolding cancel_in
cancel a = cancel_in a.state a

unfoldable pub strategy_for : Url → Strategy
strategy_for url =
    if equal_bytes url.scheme https_name || equal_bytes url.scheme http_name
    then http_tracker
    else udp_tracker

unfoldable pub set_tracker_strategy : Announcer → Url → Announcer
unfolding cancel
set_tracker_strategy a url = record (cancel a) { strategy = strategy_for url }

-- `respond` is what `handleRequest` of the strategy gets from the tracker at the URL.
module _ (respond : Strategy → Url → Result ℕ) where
  handle_request : Announcer → Result ℕ
  handle_request a = respond a.strategy a.main_tracker_url

  -- The first listed tracker that answers without an error.
  unfoldable pub loop_through_list : List Url → Announcer → Result ℕ × Announcer
  unfolding handle_request
  loop_through_list [] a = (err no_tracker, a)
  loop_through_list (url ∷ urls) a =
      let tried = set_tracker_strategy (record a { main_tracker_url = url }) url in
      let later = loop_through_list urls tried in
      elim (handle_request tried) [
        | ok interval ↦ (ok interval, tried)
        | err e ↦ later
        | panic ↦ (panic, tried)
      ]

  -- `recurringRequest.handle`: the timer is set for the stored interval.
  abbrev arm : Announcer → Announcer
  arm a = record a { timer_armed = true }

  -- The end of `initialRequest.handle`; an error ends the process by `log.Fatalf`.
  begin_rounds : Result ℕ × Announcer → Result Announcer
  begin_rounds (ok interval, a) =
      ok (arm (record a { interval = interval; state = recurring_request }))
  begin_rounds (err e, a) = panic
  begin_rounds (panic, a) = panic

  first_outcome : Result ℕ → Announcer → Result ℕ × Announcer
  first_outcome (err deadline_exceeded) a = loop_through_list a.tracker_urls a
  first_outcome (err no_tracker) a = (err no_tracker, a)
  first_outcome (err blocked) a = (err blocked, a)
  first_outcome (err io_failed) a = (err io_failed, a)
  first_outcome (err could_not_parse) a = (err could_not_parse, a)
  first_outcome (ok interval) a = (ok interval, a)
  first_outcome panic a = (panic, a)

  unfoldable pub handle_initial : Announcer → Result Announcer
  unfolding begin_rounds first_outcome loop_through_list handle_request
  handle_initial a = begin_rounds (first_outcome (handle_request a) a)

  unfoldable pub start_scrapper : Announcer → Result Announcer
  unfolding handle_initial
  start_scrapper a = handle_initial (record a { state = initial_request })

  -- The timer's callback. On an error it returns without setting the timer again, also where the
  -- loop through the list has found a tracker that answers.
  fire_outcome : Result ℕ → Announcer → Result Announcer
  fire_outcome (ok interval) a =
      ok (arm (record a { interval = interval; state = recurring_request }))
  fire_outcome (err deadline_exceeded) a =
      let (answer, a') = loop_through_list a.tracker_urls a in
      elim answer [ ok interval ↦ ok a' | err e ↦ ok a' | panic ↦ panic ]
  fire_outcome (err no_tracker) a = ok a
  fire_outcome (err blocked) a = ok a
  fire_outcome (err io_failed) a = ok a
  fire_outcome (err could_not_parse) a = ok a
  fire_outcome panic a = panic

  unfoldable pub fire : Announcer → Result Announcer
  unfolding fire_outcome loop_through_list handle_request
  fire a = fire_outcome (handle_request a) (record a { timer_armed = false })
