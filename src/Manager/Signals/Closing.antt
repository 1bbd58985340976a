-- ===== src/Manager/Signals/Closing.antt =====
-- What `Stop` of the manager leads to: a closed channel gives the number of the start signal.
use dawn_torrent.Base.{
  ℕ, zero, suc, ◌+◌, Bool, ◌≡◌, refl, true, false, List, [], ◌∷◌, Option, some, ok, replicate,
}
use dawn_torrent.Manager.{stopped, in_progress, handle_signal, handle_in, start_in}
use dawn_torrent.Manager.Signals.{
  Desk, init_round, receive, handled, stop, receives, closes, move, moves,
}

-- A manager at work behind a closed and empty channel.
record Spins (d : Desk) (downloads : List ℕ) : Type 0 where
  context : ℕ
  scrapper : Option ℕ
  router : Option ℕ
  working : d.manager.my_state ≡ in_progress context scrapper router
  emptied : d.state_chan ≡ []
  shut : d.is_closed ≡ true
  same : d.manager.downloads ≡ downloads

module _ (returns : ℕ → Bool) where
  -- A round then handles the start signal, which does nothing.
  Spins-receives :
      (d : Desk) (downloads : List ℕ)
      → Spins d downloads
      → (d' : Desk) × (move returns receives d ≡ some (ok d')) × Spins d' downloads
  unfolding move init_round receive handled handle_signal handle_in start_in
  Spins-receives d downloads s = (
    record d { manager = record (d.manager) { state = 0 }; state_chan = [] },
    rw (s.emptied, s.shut, s.working) refl,
    record {
      context = s.context;
      scrapper = s.scrapper;
      router = s.router;
      working = s.working;
      emptied = refl;
      shut = s.shut;
      same = s.same;
    },
  )

  Spins-moves :
      (n : ℕ) (d : Desk) (downloads : List ℕ)
      → Spins d downloads
      → (d' : Desk) × (moves returns (replicate n receives) d ≡ some d') × Spins d' downloads
  unfolding moves
  Spins-moves zero d downloads s = (d, refl, s)
  Spins-moves (suc n) d downloads s =
      let (e, first, t) = Spins-receives d downloads s in
      let (d', later, u) = Spins-moves n e downloads t in (d', rw (moves, first) later, u)

  -- `Stop` of a manager that is stopped, whose channel is open and empty, makes the first round of
  -- `Init` start a download. No later round waits, however many there are, and the download goes on.
  pub stop_starts :
      (n : ℕ) (d : Desk)
      → d.manager.my_state ≡ stopped
      → d.state_chan ≡ []
      → d.is_closed ≡ false
      → (d' : Desk) × (context : ℕ) × (scrapper router : Option ℕ) × (moves returns
            (closes ∷ receives ∷ replicate n receives)
            d
          ≡ some d')
        × (d'.manager.my_state ≡ in_progress context scrapper router)
        × (d'.manager.downloads ≡ d.manager.next_context ∷ d.manager.downloads)
  unfolding moves move stop init_round receive handled handle_signal handle_in start_in
  stop_starts n d idle emptied unclosed =
      let c = d.manager.next_context in
      let started : Desk = record {
        manager = start_in stopped (record (d.manager) { state = 0 });
        state_chan = [];
        is_closed = true;
      } in
      let (d', later, s) = Spins-moves n started (c ∷ d.manager.downloads) (record {
        context = c;
        scrapper = some (c + 1);
        router = some (c + 2);
        working = refl;
        emptied = refl;
        shut = refl;
        same = refl;
      }) in
      (d', s.context, s.scrapper, s.router, rw (emptied, unclosed, idle) later, s.working, s.same)
