-- ===== src/Manager/Lifecycle.antt =====
-- Runs of the state machine.
use dawn_torrent.Base.{
  ℕ, ◌≡◌, ◌≢◌, refl, ◌⊎◌, inl, inr, Bool, true, false, List, [], ◌∷◌, ◌++◌, none, some, Result, ok,
  err, panic, blocked, ◌>>=◌, ap, All, subst, sym, ==_iff, ◌==◌, if◌then◌else◌, arith,
}
use dawn_torrent.Manager.{
  Manager, ManagerState, stopped, in_progress, paused, handle_signal, run, new_manager,
  get_current_state, started_event, start_torrent, pause_torrent, stop_torrent, complete_torrent,
  handle_in, start_in, stop_in, pause_in, call_cancel, cancel, wait,
}

abbrev pub is_in : ℕ → List ℕ → Bool
is_in c [] = false
is_in c (x ∷ xs) = if x == c then true else is_in c xs

abbrev pub AllIn : List ℕ → List ℕ → Type 0
AllIn [] cs = Unit {0}
AllIn (d ∷ ds) cs = (is_in d cs ≡ true) × AllIn ds cs

AllIn-cons : (ds cs : List ℕ) (c : ℕ) → AllIn ds cs → AllIn ds (c ∷ cs)
AllIn-cons [] cs c h = tt
AllIn-cons (d ∷ ds) cs c h = (ground (arith, h.0), AllIn-cons ds cs c h.1)

-- The manager was not paused. A stopped one has cancelled all its downloads and scrappers; a
-- running one has its cancel functions, and has cancelled all but the download and the scrapper
-- that it started last.
abbrev pub IsSound : ManagerState → Manager → Type 0
IsSound stopped m = AllIn m.downloads m.cancelled × AllIn m.scrappers m.cancelled
IsSound (in_progress d (some s) (some r)) m =
    (ds ss : List ℕ) × (m.downloads ≡ d ∷ ds)
    × (m.scrappers ≡ s ∷ ss)
    × AllIn ds m.cancelled
    × AllIn ss m.cancelled
IsSound _ m = ⊥

branch {ℓ κ} :
    {A : Type ℓ} (P : A → Type κ) (b : Bool) (x y : A)
    → (b ≡ true → P x)
    → (b ≡ false → P y)
    → P (if b then x else y)
branch P true x y f g = f refl
branch P false x y f g = g refl

all_cancelled :
    (d : ℕ) (ds cs front : List ℕ) (all : List ℕ)
    → all ≡ d ∷ ds
    → is_in d (front ++ cs) ≡ true
    → AllIn ds (front ++ cs)
    → AllIn all (front ++ cs)
all_cancelled d ds cs front all e here rest =
    subst (λ l. AllIn l (front ++ cs)) (sym e) (here, rest)

IsSound-state :
    (st : ManagerState) (m : Manager) (signal : ℕ)
    → IsSound st m
    → IsSound st (record m { state = signal })
IsSound-state stopped m signal h = h
IsSound-state (in_progress d (some s) (some r)) m signal h = h
IsSound-state (in_progress d none r) m signal h = absurd h
IsSound-state (in_progress d (some s) none) m signal h = absurd h
IsSound-state (paused s r) m signal h = absurd h

module _ (returns : ℕ → Bool) where
  -- A wait that never returns.
  abbrev pub Hangs : Type 0
  Hangs = (d : ℕ) × (returns d ≡ false)

  -- The outcome of a round: no panic, and the predicate holds of the new state, or a wait that never
  -- returns.
  abbrev pub Lands : (ManagerState → Manager → Type 0) → Result Manager → Type 0
  Lands P (ok m) = P m.my_state m
  Lands P (err e) = (e ≡ blocked) × Hangs
  Lands P panic = ⊥

  pub wait-Lands :
      (P : ManagerState → Manager → Type 0) (d : ℕ) (m : Manager) (f : Manager → Result Manager)
      → Lands P (f m)
      → Lands P (wait returns d m >>= f)
  unfolding wait
  wait-Lands P d m f h = go (returns d) refl
    where
      go : (b : Bool) → returns d ≡ b → Lands P ((if b then ok m else err blocked) >>= f)
      go true e = h
      go false e = (refl, (d, e))

  -- The five branches of a round.
  pub signal_branches :
      (P : Result Manager → Type 0) (signal : ℕ) (start pause stop other : Result Manager)
      → P start
      → (signal ≡ pause_torrent → P pause)
      → ((signal ≡ stop_torrent) ⊎ (signal ≡ complete_torrent) → P stop)
      → P other
      → P (
          if signal == start_torrent
          then start
          else if signal == pause_torrent
          then pause
          else if signal == stop_torrent
          then stop
          else if signal == complete_torrent
          then stop
          else other)
  signal_branches P signal start pause stop other f g h k =
      branch P _ _ _ (λ _. f)
        λ _.
          branch P _ _ _ (λ e. g ((==_iff signal pause_torrent).0 e))
            λ _.
              branch P _ _ _ (λ e. h (inl ((==_iff signal stop_torrent).0 e)))
                λ _. branch P _ _ _ (λ e. h (inr ((==_iff signal complete_torrent).0 e))) λ _. k

  handle_in-IsSound :
      (st : ManagerState) (signal : ℕ) (m : Manager)
      → m.my_state ≡ st
      → signal ≢ pause_torrent
      → IsSound st m
      → Lands IsSound (handle_in returns st signal m)
  unfolding handle_in start_in stop_in pause_in call_cancel wait
  handle_in-IsSound stopped signal m e unpaused h =
      let kept = subst (λ st. IsSound st m) (sym e) h in
      signal_branches (Lands IsSound) signal _ _ _ _
        (m.downloads, m.scrappers, refl, refl, h.0, h.1) (λ _. kept) (λ _. kept) kept
  handle_in-IsSound (in_progress d (some s) (some r)) signal m e unpaused h =
      let kept = subst (λ st. IsSound st m) (sym e) h in
      let (ds, ss, eds, ess, hd, hs) = h in
      let cs = m.cancelled in
      let more = λ (l : List ℕ) (k : AllIn l cs).
        AllIn-cons l (s ∷ d ∷ cs) r (AllIn-cons l (d ∷ cs) s (AllIn-cons l cs d k)) in
      signal_branches (Lands IsSound) signal _ _ _ _ kept (λ p. absurd (unpaused p))
        (λ _. wait-Lands IsSound d (cancel d m) _ (
          all_cancelled d ds cs (r ∷ s ∷ d ∷ []) m.downloads eds (ground arith) (more ds hd),
          all_cancelled s ss cs (r ∷ s ∷ d ∷ []) m.scrappers ess (ground arith) (more ss hs),
        ))
        kept
  handle_in-IsSound (in_progress d none r) signal m e unpaused h = absurd h
  handle_in-IsSound (in_progress d (some s) none) signal m e unpaused h = absurd h
  handle_in-IsSound (paused s r) signal m e unpaused h = absurd h

  run-Lands :
      (P : ManagerState → Manager → Type 0) (Allowed : ℕ → Type 0)
      → ((signal : ℕ) (m : Manager)
          → Allowed signal
          → P m.my_state m
          → Lands P (handle_signal returns signal m))
      → (signals : List ℕ) (m : Manager) → All Allowed signals
      → P m.my_state m
      → Lands P (run returns signals m)
  unfolding run
  run-Lands P Allowed step [] m allowed h = h
  run-Lands P Allowed step (signal ∷ signals) m allowed h =
      go (handle_signal returns signal m) (step signal m allowed.0 h)
        (λ m' h'. run-Lands P Allowed step signals m' allowed.1 h')
    where
      go :
          (out : Result Manager)
          → Lands P out
          → ((m' : Manager) → P m'.my_state m' → Lands P (run returns signals m'))
          → Lands P (out >>= run returns signals)
      go (ok m') h' next = next m' h'
      go (err e) h' next = h'
      go panic h' next = absurd h'

  Lands-cases :
      (P : ManagerState → Manager → Type 0) (out : Result Manager)
      → Lands P out
      → ((m : Manager) × (out ≡ ok m) × P m.my_state m) ⊎ ((out ≡ err blocked) × Hangs)
  Lands-cases P (ok m) h = inl (m, refl, h)
  Lands-cases P (err e) h = inr (ap err h.0, h.1)
  Lands-cases P panic h = absurd h

  handle_signal-IsSound :
      (signal : ℕ) (m : Manager)
      → signal ≢ pause_torrent
      → IsSound m.my_state m
      → Lands IsSound (handle_signal returns signal m)
  unfolding handle_signal
  handle_signal-IsSound signal m ne h =
      handle_in-IsSound m.my_state signal (record m { state = signal }) refl ne
        (IsSound-state m.my_state m signal h)

  -- A new manager that is never paused takes any signals without a panic, unless it blocks in a wait,
  -- and then there is a download for which the wait never returns. Whenever it is stopped, all
  -- downloads and scrappers that it started are cancelled; while it runs, all but the last ones are,
  -- and it has the functions that cancel these.
  pub run-IsSound :
      (signals : List ℕ)
      → All (λ s. s ≢ pause_torrent) signals
      → ((m : Manager) × (run returns signals new_manager ≡ ok m) × IsSound m.my_state m)
        ⊎ ((run returns signals new_manager ≡ err blocked) × ((d : ℕ) × (returns d ≡ false)))
  unfolding new_manager
  run-IsSound signals unpaused = Lands-cases IsSound (run returns signals new_manager) (
      run-Lands IsSound (λ s. s ≢ pause_torrent) handle_signal-IsSound signals new_manager unpaused
        (tt, tt))

reported_in :
    (st : ManagerState) (m : Manager) → m.my_state ≡ st → get_current_state m ≢ ok started_event
unfolding get_current_state
reported_in stopped m e started = absurd (ground (arith, e, started))
reported_in (in_progress d s r) m e started = absurd (ground (arith, e, started))
reported_in (paused s r) m e started = absurd (ground (arith, e, started))

-- In no state of the manager do the announces report the event "started".
pub get_current_state_never_started : (m : Manager) → get_current_state m ≢ ok started_event
get_current_state_never_started m = reported_in m.my_state m refl
