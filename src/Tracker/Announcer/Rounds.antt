-- ===== src/Tracker/Announcer/Rounds.antt =====
-- Which tracker is announced to, and when the announces stop.
use dawn_torrent.Base.{
  ℕ, ◌≡◌, refl, true, false, List, [], ◌∷◌, ◌++◌, Error, Result, ok, err, deadline_exceeded, arith,
}
use dawn_torrent.Tracker.Announcer.{
  Url, Strategy, Announcer, initial_request, recurring_request, strategy_for, set_tracker_strategy,
  loop_through_list, handle_request, handle_initial, start_scrapper, fire, fire_outcome,
  first_outcome, begin_rounds,
}

module _ (respond : Strategy → Url → Result ℕ) where
  abbrev pub Fails : Url → Type 0
  Fails url = (e : Error) × (respond (strategy_for url) url ≡ err e)

  abbrev pub AllFail : List Url → Type 0
  AllFail [] = Unit {0}
  AllFail (u ∷ us) = Fails u × AllFail us

  -- The loop announces to the first listed tracker that answers, by the strategy that its scheme
  -- asks for, and gives the tracker's interval.
  pub loop_through_list_first :
      (a : Announcer) (dead : List Url) (url : Url) (rest : List Url) (interval : ℕ)
      → AllFail dead
      → respond (strategy_for url) url ≡ ok interval
      → let out = loop_through_list respond (dead ++ (url ∷ rest)) a in
        (out.0 ≡ ok interval) × (out.1.main_tracker_url ≡ url) × (out.1.strategy ≡ strategy_for url)
  unfolding loop_through_list set_tracker_strategy
  loop_through_list_first a [] url rest interval fails answers = ground (arith, answers)
  loop_through_list_first a (d ∷ ds) url rest interval (f, fs) answers =
      let tried = set_tracker_strategy (record a { main_tracker_url = d }) d in
      ground (arith, f.1, loop_through_list_first tried ds url rest interval fs answers)

  loop_keeps_timer_off :
      (urls : List Url) (a : Announcer)
      → a.timer_armed ≡ false
      → (loop_through_list respond urls a).1.timer_armed ≡ false
  unfolding loop_through_list set_tracker_strategy
  loop_keeps_timer_off [] a off = off
  loop_keeps_timer_off (u ∷ us) a off =
      let tried = set_tracker_strategy (record a { main_tracker_url = u }) u in
      ground (arith, loop_keeps_timer_off us tried)

  fire_outcome_stops :
      (a b : Announcer) (e : Error)
      → a.timer_armed ≡ false
      → fire_outcome respond (err e) a ≡ ok b
      → b.timer_armed ≡ false
  unfolding fire_outcome
  fire_outcome_stops a b deadline_exceeded off out =
      ground (arith, loop_keeps_timer_off a.tracker_urls a off)
  fire_outcome_stops a b _ off out = ground arith

  -- A periodic announce that fails is the last one: if the process goes on then no timer is set,
  -- whatever the other trackers of the list answer.
  pub fire_fails :
      (a b : Announcer) (e : Error)
      → respond a.strategy a.main_tracker_url ≡ err e
      → fire respond a ≡ ok b
      → b.timer_armed ≡ false
  unfolding fire handle_request
  fire_fails a b e fails out =
      fire_outcome_stops (record a { timer_armed = false }) b e refl (rw fails at out)

  -- The first announce after the start: if the main tracker does not answer in time, the first
  -- listed tracker that answers takes its place, and the periodic announces begin.
  pub start_scrapper_falls_back :
      (a : Announcer) (dead : List Url) (url : Url) (rest : List Url) (interval : ℕ)
      → a.tracker_urls ≡ dead ++ (url ∷ rest)
      → respond a.strategy a.main_tracker_url ≡ err deadline_exceeded
      → AllFail dead
      → respond (strategy_for url) url ≡ ok interval
      → (b : Announcer) × (start_scrapper respond a ≡ ok b)
        × (b.main_tracker_url ≡ url)
        × (b.interval ≡ interval)
        × (b.timer_armed ≡ true)
        × (b.state ≡ recurring_request)
  unfolding start_scrapper handle_initial begin_rounds first_outcome handle_request
  start_scrapper_falls_back a dead url rest interval listed late fails answers =
      let a' = record a { state = initial_request } in
      let found = loop_through_list_first a' dead url rest interval fails answers in
      let out = loop_through_list respond (dead ++ (url ∷ rest)) a' in
      (
        record out.1 { interval = interval; timer_armed = true; state = recurring_request },
        ground (arith, found, listed),
        found.1,
        refl,
        refl,
        refl,
      )
