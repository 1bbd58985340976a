-- ===== src/Tests/Managing.antt =====
-- Managers that take signals.
use dawn_torrent.Base.{
  Bool, ◌==◌, ◌⊎◌, err, blocked, ℕ, ◌≤◌, false, length, replicate, List, Option, ◌≡◌, refl, inl, [],
  ◌∷◌, ◌++◌, some, ok, panic, arith,
}
use dawn_torrent.Manager.{
  Manager, in_progress, new_manager, handle_signal, run, start_torrent, pause_torrent, stop_torrent,
  complete_torrent,
}
use dawn_torrent.Manager.Signals.{Desk, new_desk, Move, sends, receives, closes, moves}
use dawn_torrent.Manager.Signals.Order.{sent, moves-run}
use dawn_torrent.Manager.Signals.Closing.{stop_starts}
use dawn_torrent.Manager.Lifecycle.{IsSound, run-IsSound}
use dawn_torrent.Manager.Pausing.{run_pause_then_stop_panics}

-- The first download that is cancelled ends, the others never do.
abbrev first_returns : ℕ → Bool
first_returns d = d == 0

run-IsSound_example :
    let signals = start_torrent ∷ stop_torrent ∷ start_torrent ∷ complete_torrent ∷ [] in
    ((m : Manager) × (run first_returns signals new_manager ≡ ok m) × IsSound m.my_state m)
    ⊎ ((run first_returns signals new_manager ≡ err blocked)
        × ((d : ℕ) × (first_returns d ≡ false)))
run-IsSound_example =
    run-IsSound first_returns (start_torrent ∷ stop_torrent ∷ start_torrent ∷ complete_torrent ∷ [])
      (omega arith, (omega arith, (omega arith, (omega arith, tt))))

-- A manager after its first start.
abbrev running : Manager
running = record new_manager { my_state = in_progress 0 (some 1) (some 2) }

run_pause_then_stop_panics_example :
    let signals = pause_torrent ∷ ((start_torrent ∷ []) ++ (stop_torrent ∷ [])) in
    (run first_returns signals running ≡ panic)
    ⊎ ((run first_returns signals running ≡ err blocked) × ((c : ℕ) × (first_returns c ≡ false)))
run_pause_then_stop_panics_example =
    run_pause_then_stop_panics first_returns running 0 (some 1) (some 2) (start_torrent ∷ [])
      stop_torrent refl ((omega arith, omega arith), tt) (inl refl)

-- A start is handled, a stop is handled, and another start is still in the channel.
abbrev exchange : List Move
exchange = sends 0 ∷ receives ∷ sends 2 ∷ receives ∷ sends 0 ∷ []

exchange_runs :
    (d : Desk) × (moves first_returns exchange new_desk ≡ some d) × (d.is_closed ≡ false)
unfolding moves handle_signal new_manager
exchange_runs = (_, refl, refl)

moves-run_example :
    (received : List ℕ) × (run first_returns received new_manager ≡ ok exchange_runs.0.manager)
    × (sent exchange ≡ received ++ exchange_runs.0.state_chan)
    × (length exchange_runs.0.state_chan ≤ 1)
moves-run_example = moves-run first_returns exchange exchange_runs.0 exchange_runs.1 exchange_runs.2

stop_starts_example :
    (d' : Desk) × (context : ℕ) × (scrapper router : Option ℕ) × (moves first_returns
        (closes ∷ receives ∷ replicate 3 receives)
        new_desk
      ≡ some d')
    × (d'.manager.my_state ≡ in_progress context scrapper router)
    × (d'.manager.downloads ≡ 0 ∷ [])
unfolding new_manager
stop_starts_example = stop_starts first_returns 3 new_desk refl refl refl
