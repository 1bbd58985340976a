-- ===== src/Tests/Working.antt =====
-- Workers of a downloader for forty bytes in pieces of sixteen.
use dawn_torrent.Base.{
  ◌+◌, ◌≡◌, refl, true, false, List, [], ◌∷◌, ◌++◌, length, none, some, ok, ltb, if◌then◌else◌,
  arith,
}
use dawn_torrent.Downloader.{Downloader, new_torrent_downloader}
use dawn_torrent.Downloader.Workers.{
  Crew, start_crew, weigh, Event, starts, signals, takes, quits, delivers, cancels, closes, run,
}
use dawn_torrent.Downloader.Workers.Counting.{count, holds, queued}
use dawn_torrent.Downloader.Workers.Safety.{run_once, run_reported}

-- One worker does it all.
abbrev round : List Event
round = signals 0 ∷ takes 0 ∷ delivers 0 ∷ []

abbrev pub alone : List Event
alone = (starts 0 ∷ round) ++ (round ++ (round ++ (signals 0 ∷ takes 0 ∷ closes ∷ [])))

made : (d : Downloader) × (new_torrent_downloader 40 16 ≡ ok d)
unfolding new_torrent_downloader
made = (_, refl)

alone_runs :
    (s : Crew) × (run alone (start_crew made.0) ≡ some s)
    × (s.reported ≡ true)
    × (s.cancelled ≡ false)
    × (s.written ≡ 0 ∷ 1 ∷ 2 ∷ [])
unfolding made run
alone_runs = (_, refl, refl, refl, refl)

three_pieces : length made.0.queue.pieces ≡ 3
unfolding made
three_pieces = refl

run_reported_example : count 1 alone_runs.0.written ≡ 1
run_reported_example =
    run_reported 40 16 made.0 alone alone_runs.0 1 (omega arith) made.1 alone_runs.1 alone_runs.3
      alone_runs.2 (omega (arith, three_pieces))

-- Two workers, of which one is told to stop while a piece is still among the jobs: completion is
-- reported although that piece was never written.
abbrev stopped_early : List Event
stopped_early =
    starts 0
    ∷ starts 1
    ∷ signals 0
    ∷ takes 0
    ∷ delivers 0
    ∷ signals 0
    ∷ signals 1
    ∷ takes 1
    ∷ delivers 1
    ∷ signals 1
    ∷ cancels
    ∷ quits 0
    ∷ quits 1
    ∷ closes
    ∷ []

stopped_early_runs :
    (s : Crew) × (run stopped_early (start_crew made.0) ≡ some s)
    × (s.reported ≡ true)
    × (s.written ≡ 0 ∷ 1 ∷ [])
    × (s.jobs ≡ some 2 ∷ none ∷ [])
unfolding made run
stopped_early_runs = (_, refl, refl, refl, refl)

run_once_example :
    count 2 stopped_early_runs.0.written
      + weigh (holds 2) stopped_early_runs.0.workers
      + queued 2 stopped_early_runs.0.jobs
    ≡ (if ltb 2 stopped_early_runs.0.downloader.last_selected_piece_index then 1 else 0)
run_once_example =
    run_once 40 16 made.0 stopped_early stopped_early_runs.0 2 (omega arith) made.1
      stopped_early_runs.1
