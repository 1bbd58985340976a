-- ===== src/Manager/Pausing.antt =====
-- Runs of the state machine through the paused state.
use dawn_torrent.Base.{
  ℕ, Bool, true, false, if◌then◌else◌, ◌≡◌, ◌≢◌, refl, ◌⊎◌, inl, inr, List, [], ◌∷◌, ◌++◌, Option,
  none, Result, ok, err, panic, blocked, ap, ◌>>=◌, All, subst, sym,
}
use dawn_torrent.Manager.{
  Manager, ManagerState, stopped, in_progress, paused, handle_signal, run, pause_torrent,
  stop_torrent, complete_torrent, handle_in, start_in, stop_in, pause_in, call_cancel, cancel, wait,
}
use dawn_torrent.Manager.Lifecycle.{Hangs, Lands, wait-Lands, signal_branches}

-- Paused, or resumed from there: a running manager has lost its cancel functions.
abbrev pub IsDoomed : ManagerState → Manager → Type 0
IsDoomed stopped m = ⊥
IsDoomed (in_progress d s r) m = s ≡ none
IsDoomed (paused s r) m = Unit {0}

-- Neither a stop nor a completion.
abbrev pub KeepsOn : ℕ → Type 0
KeepsOn signal = (signal ≢ stop_torrent) × (signal ≢ complete_torrent)

module _ (returns : ℕ → Bool) where
  handle_in-IsDoomed :
      (st : ManagerState) (signal : ℕ) (m : Manager)
      → m.my_state ≡ st
      → KeepsOn signal
      → IsDoomed st m
      → Lands returns IsDoomed (handle_in returns st signal m)
  unfolding handle_in start_in pause_in wait
  handle_in-IsDoomed stopped signal m e keeps h = absurd h
  handle_in-IsDoomed (in_progress d s r) signal m e keeps h =
      let kept = subst (λ st. IsDoomed st m) (sym e) h in
      signal_branches returns (Lands returns IsDoomed) signal _ _ _ _ kept
        (λ _. wait-Lands returns IsDoomed d (cancel d m) _ tt) (λ x. absurd (stops x)) kept
    where
      stops : (signal ≡ stop_torrent) ⊎ (signal ≡ complete_torrent) → ⊥
      stops (inl x) = keeps.0 x
      stops (inr x) = keeps.1 x
  handle_in-IsDoomed (paused s r) signal m e keeps h =
      let kept = subst (λ st. IsDoomed st m) (sym e) h in
      signal_branches returns (Lands returns IsDoomed) signal _ _ _ _ refl (λ _. kept)
        (λ x. absurd (stops x)) kept
    where
      stops : (signal ≡ stop_torrent) ⊎ (signal ≡ complete_torrent) → ⊥
      stops (inl x) = keeps.0 x
      stops (inr x) = keeps.1 x

  handle_signal-IsDoomed :
      (signal : ℕ) (m : Manager)
      → KeepsOn signal
      → IsDoomed m.my_state m
      → Lands returns IsDoomed (handle_signal returns signal m)
  unfolding handle_signal
  handle_signal-IsDoomed signal m keeps h =
      handle_in-IsDoomed m.my_state signal (record m { state = signal }) refl keeps
        (moved m.my_state h)
    where
      moved : (st : ManagerState) → IsDoomed st m → IsDoomed st (record m { state = signal })
      moved stopped h = h
      moved (in_progress d s r) h = h
      moved (paused s r) h = h

  -- The end of a manager: a panic, or a wait that never returns.
  abbrev Ends : Result Manager → Type 0
  Ends out = (out ≡ panic) ⊎ ((out ≡ err blocked) × Hangs returns)

  stop_in-IsDoomed : (st : ManagerState) (m : Manager) → IsDoomed st m → Ends (stop_in returns st m)
  unfolding stop_in call_cancel wait
  stop_in-IsDoomed stopped m h = absurd h
  stop_in-IsDoomed (in_progress d s r) m h = go (returns d) refl
    where
      go :
          (b : Bool)
          → returns d ≡ b
          → Ends (
              (if b then ok (cancel d m) else err blocked) >>= λ m'. call_cancel s m' >>= λ m''.
              call_cancel r m'' >>= λ k. ok (record k { my_state = stopped }))
      go true e = inl (rw h refl)
      go false e = inr (refl, (d, e))
  stop_in-IsDoomed (paused s r) m h = inl refl

  handle_signal_stop_doomed :
      (m : Manager) (signal : ℕ)
      → (signal ≡ stop_torrent) ⊎ (signal ≡ complete_torrent)
      → IsDoomed m.my_state m
      → Ends (handle_signal returns signal m)
  unfolding handle_signal handle_in
  handle_signal_stop_doomed m signal ends h = elim ends [
    | inl e ↦
        subst (λ x. Ends (handle_signal returns x m)) (sym e)
          (stop_in-IsDoomed m.my_state (record m { state = stop_torrent })
            (moved stop_torrent m.my_state h))
    | inr e ↦
        subst (λ x. Ends (handle_signal returns x m)) (sym e)
          (stop_in-IsDoomed m.my_state (record m { state = complete_torrent })
            (moved complete_torrent m.my_state h))
  ]
    where
      moved : (x : ℕ) (st : ManagerState) → IsDoomed st m → IsDoomed st (record m { state = x })
      moved x stopped h = h
      moved x (in_progress d s r) h = h
      moved x (paused s r) h = h

  -- What behind the outcome of a round ends, with this outcome.
  bind-Ends :
      (P : ManagerState → Manager → Type 0) (out : Result Manager) (f : Manager → Result Manager)
      → Lands returns P out
      → ((m : Manager) → P m.my_state m → Ends (f m))
      → Ends (out >>= f)
  bind-Ends P (ok m) f h next = next m h
  bind-Ends P (err e) f h next = inr (ap err h.0, h.1)
  bind-Ends P panic f h next = absurd h

  pause_running :
      (m : Manager) (d : ℕ) (s r : Option ℕ)
      → m.my_state ≡ in_progress d s r
      → Lands returns IsDoomed (handle_signal returns pause_torrent m)
  unfolding handle_signal handle_in pause_in wait
  pause_running m d s r running =
      let m' = record m { state = pause_torrent } in
      subst (λ st. Lands returns IsDoomed (handle_in returns st pause_torrent m')) (sym running)
        (wait-Lands returns IsDoomed d (cancel d m') _ tt)

  -- Whatever starts and pauses come first.
  then_stops :
      (between : List ℕ) (m : Manager) (signal : ℕ)
      → All KeepsOn between
      → (signal ≡ stop_torrent) ⊎ (signal ≡ complete_torrent)
      → IsDoomed m.my_state m
      → Ends (run returns (between ++ (signal ∷ [])) m)
  unfolding run
  then_stops [] m signal keeps ends h = elim (handle_signal_stop_doomed m signal ends h) [
    | inl e ↦ inl (ap (λ out. out >>= run returns []) e)
    | inr (e, hangs) ↦ inr (ap (λ out. out >>= run returns []) e, hangs)
  ]
  then_stops (x ∷ xs) m signal (keep, keeps) ends h =
      bind-Ends IsDoomed (handle_signal returns x m) (run returns (xs ++ (signal ∷ [])))
        (handle_signal-IsDoomed x m keep h) λ m'. then_stops xs m' signal keeps ends

  -- A running manager that is paused never comes out of a stop again: whatever starts and pauses
  -- follow, the run to the next stop or completion panics, or it blocks in a wait, and then there is
  -- a download for which the wait never returns.
  pub run_pause_then_stop_panics :
      (m : Manager) (d : ℕ) (s r : Option ℕ) (between : List ℕ) (signal : ℕ)
      → m.my_state ≡ in_progress d s r
      → All KeepsOn between
      → (signal ≡ stop_torrent) ⊎ (signal ≡ complete_torrent)
      → (run returns (pause_torrent ∷ (between ++ (signal ∷ []))) m ≡ panic)
        ⊎ ((run returns (pause_torrent ∷ (between ++ (signal ∷ []))) m ≡ err blocked)
            × ((c : ℕ) × (returns c ≡ false)))
  unfolding run
  run_pause_then_stop_panics m d s r between signal running keeps ends =
      bind-Ends IsDoomed (handle_signal returns pause_torrent m)
        (run returns (between ++ (signal ∷ []))) (pause_running m d s r running)
        λ m'. then_stops between m' signal keeps ends
