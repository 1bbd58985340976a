-- ===== src/Tests/Announces.antt =====
-- An announcer with three trackers.
use dawn_torrent.Base.{
  List, Bytes, Option, some, ℕ, ◌≡◌, refl, true, false, [], ◌∷◌, none, Result, ok, err,
  deadline_exceeded, io_failed, equal_bytes,
}
use dawn_torrent.Tracker.Announcer.{
  Url, Strategy, Announcer, http_tracker, udp_tracker, initial_request, recurring_request,
  strategy_for, start_scrapper, fire, http_name,
}
use dawn_torrent.Tracker.Announcer.Listing.{
  new_announcer, Use, starts, asks, stops, resets, apply_all,
}
use dawn_torrent.Tracker.Announcer.Rounds.{fire_fails, start_scrapper_falls_back}

abbrev web : Url
web = record { scheme = http_name; address = b'w' ∷ [] }

abbrev datagram : Url
datagram = record { scheme = b'u' ∷ b'd' ∷ b'p' ∷ []; address = b'd' ∷ [] }

abbrev announcer : Announcer
announcer = record {
  state = initial_request;
  main_tracker_url = web;
  tracker_urls = web ∷ datagram ∷ [];
  interval = 0;
  timer_armed = false;
  strategy = http_tracker;
  serialized_state = none;
}

-- HTTP trackers do not answer in time, UDP trackers answer with an interval.
abbrev half : Strategy → Url → Result ℕ
half http_tracker url = err deadline_exceeded
half udp_tracker url = ok 1800

abbrev silent : Strategy → Url → Result ℕ
silent strategy url = err io_failed

start_scrapper_falls_back_example :
    (b : Announcer) × (start_scrapper half announcer ≡ ok b)
    × (b.main_tracker_url ≡ datagram)
    × (b.interval ≡ 1800)
    × (b.timer_armed ≡ true)
    × (b.state ≡ recurring_request)
unfolding strategy_for equal_bytes
start_scrapper_falls_back_example =
    start_scrapper_falls_back half announcer (web ∷ []) datagram [] 1800 refl refl
      ((deadline_exceeded, refl), tt) refl

abbrev going : Announcer
going = record announcer { state = recurring_request; timer_armed = true; interval = 60 }

-- The timer's callback on an announcer whose tracker fails.
abbrev stopped : Announcer
stopped = record going { timer_armed = false }

fire-silent : fire silent going ≡ ok stopped
unfolding fire
fire-silent = refl

fire_fails_example : stopped.timer_armed ≡ false
fire_fails_example = fire_fails silent going stopped io_failed refl fire-silent

-- A URL that is all address.
abbrev parse : Bytes → Option Url
parse text = some (record { scheme = []; address = text })

abbrev to_text : Url → Bytes
to_text url = url.address

abbrev list : List Bytes
list = (b'a' ∷ []) ∷ (b'b' ∷ []) ∷ []

abbrev uses : List Use
uses = asks ∷ starts half ∷ resets ∷ asks ∷ stops ∷ asks ∷ []

opened : (a : Announcer) × (new_announcer parse [] list ≡ ok a)
unfolding new_announcer
opened = (_, refl)

used :
    (b : Announcer) × (lists : List (List Bytes)) × (apply_all to_text uses opened.0
      ≡ ok (lists, b))
unfolding opened apply_all strategy_for equal_bytes
used = (_, _, refl)
