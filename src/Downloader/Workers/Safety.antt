-- ===== src/Downloader/Workers/Safety.antt =====
-- core/downloader.go: along every order of events each piece is handed out and written once.
use dawn_torrent.Base.{
  ok-injective, ℕ, ◌+◌, ◌≤◌, ◌<◌, ◌≡◌, refl, ap, ◌∙◌, sym, subst, true, false, ◌&&◌, ◌||◌, not,
  List, [], ◌∷◌, ◌++◌, Option, none, some, ok, length, get_elem?, ltb, if◌then◌else◌, Option-cases,
  inl, inr, dec_lt, arith,
}
use dawn_torrent.Downloader.{Downloader, new_torrent_downloader}
use dawn_torrent.Downloader.Selection.{
  select_next, select_done, advance, IsSequential, new_torrent_downloader-IsSequential,
}
use dawn_torrent.Downloader.Workers.Counting.{holds, count, queued}
use dawn_torrent.Downloader.Workers.{
  Worker, unstarted, signalling, waiting, working, finished, Crew, start_crew, weigh, active, Event,
  starts, signals, takes, quits, delivers, cancels, notices, closes, leaves, move, hand_out,
  take_job, deliver, step, run,
}
use dawn_torrent.Downloader.Workers.Handing.{
  pieces_of, next_of, Inv, Inv-starts, Inv-delivers, Inv-takes_piece, Inv-takes_nil, Inv-quits,
}
use dawn_torrent.Downloader.Workers.Giving.{
  Inv-hands_piece, Inv-hands_nil, Inv-flags, Inv-cancels, Inv-closes,
}

starts_from :
    (i : ℕ) (s s' : Crew)
    → step (starts i) s ≡ some s'
    → (get_elem? s.workers i ≡ some unstarted) × (move i signalling s ≡ s')
unfolding step
starts_from i s s' h = ground (arith, h)

signals_from :
    (i : ℕ) (s s' : Crew)
    → step (signals i) s ≡ some s'
    → (get_elem? s.workers i ≡ some signalling) × (hand_out i s ≡ some s')
unfolding step
signals_from i s s' h = ground (arith, h)

takes_from :
    (i : ℕ) (s s' : Crew)
    → step (takes i) s ≡ some s'
    → (get_elem? s.workers i ≡ some waiting) × (take_job s.jobs i s ≡ some s')
unfolding step
takes_from i s s' h = ground (arith, h)

quits_from :
    (i : ℕ) (s s' : Crew)
    → step (quits i) s ≡ some s'
    → (get_elem? s.workers i ≡ some waiting) × (s.cancelled ≡ true) × (move i finished s ≡ s')
unfolding step
quits_from i s s' h = ground (arith, h)

closes_from :
    (s s' : Crew)
    → step closes s ≡ some s'
    → (s.sent_shut_down_signal ≡ true)
      × (weigh active s.workers ≡ 0)
      × (record s { closed = true; reported = s.is_completed } ≡ s')
unfolding step
closes_from s s' h = ground (arith, h)

some-injective : {a b : Crew} → ◌≡◌ {A = Option Crew} (some a) (some b) → a ≡ b
some-injective h = ground (arith, h)

module _ (n : ℕ) (s s' : Crew) (v : Inv n s) (i : ℕ) where
  Inv-take_job :
      (jobs : List (Option ℕ))
      → s.jobs ≡ jobs
      → get_elem? s.workers i ≡ some waiting
      → take_job jobs i s ≡ some s'
      → Inv n s'
  Inv-take_job [] e at h = absurd (ground (arith, h))
  Inv-take_job (some q ∷ rest) e at h =
      subst (Inv n) (ground (arith, h)) (Inv-takes_piece n s v i q rest at e)
  Inv-take_job (none ∷ rest) e at h =
      subst (Inv n) (ground (arith, h)) (Inv-takes_nil n s v i rest at e)

  Inv-deliver : (w : Option Worker) → get_elem? s.workers i ≡ w → deliver w i s ≡ some s' → Inv n s'
  Inv-deliver (some (working q)) at h =
      subst (Inv n) (ground (arith, h)) (Inv-delivers n s v i q at)
  Inv-deliver none at h = absurd (ground (arith, h))
  Inv-deliver (some unstarted) at h = absurd (ground (arith, h))
  Inv-deliver (some signalling) at h = absurd (ground (arith, h))
  Inv-deliver (some waiting) at h = absurd (ground (arith, h))
  Inv-deliver (some finished) at h = absurd (ground (arith, h))

  Inv-hand_out : get_elem? s.workers i ≡ some signalling → hand_out i s ≡ some s' → Inv n s'
  unfolding hand_out
  Inv-hand_out at h = elim (dec_lt (next_of s) (pieces_of s)) [
    | yes more ↦
        let ends = s.is_shutting_down in
        let complete = if ends && not s.sent_shut_down_signal then false else s.is_completed in
        let before : complete ≡ true → s.is_completed ≡ true = λ c. ground (arith, c) in
        let out : hand_out i s
            ≡ some (record (move i waiting s) {
              downloader = advance s.downloader;
              jobs = s.jobs ++ (some (next_of s) ∷ []);
              sent_shut_down_signal = s.sent_shut_down_signal || ends;
              is_completed = complete;
            }) =
          rw (hand_out, select_next 0 s.downloader v.mode more) refl in
        subst (Inv n) (some-injective (sym out ∙ h))
          (Inv-hands_piece n s v i (s.sent_shut_down_signal || ends) complete before at more)
    | no over ↦
        let all : pieces_of s ≤ next_of s = omega arith in
        let complete = if not s.sent_shut_down_signal then true else s.is_completed in
        let out : hand_out i s
            ≡ some (record (move i waiting s) {
              jobs = s.jobs ++ (none ∷ []);
              sent_shut_down_signal = s.sent_shut_down_signal || true;
              is_completed = complete;
            }) =
          rw (hand_out, select_done 0 s.downloader (omega (arith, all, v.mode.selected))) refl in
        subst (Inv n) (some-injective (sym out ∙ h))
          (Inv-hands_nil n s v i (s.sent_shut_down_signal || true) complete at all)
  ]

Inv-step : (n : ℕ) (e : Event) (s s' : Crew) → Inv n s → step e s ≡ some s' → Inv n s'
unfolding step
Inv-step n (starts i) s s' v h =
    let (at, e) = starts_from i s s' h in subst (Inv n) e (Inv-starts n s v i at)
Inv-step n (signals i) s s' v h =
    let (at, e) = signals_from i s s' h in Inv-hand_out n s s' v i at e
Inv-step n (takes i) s s' v h =
    let (at, e) = takes_from i s s' h in Inv-take_job n s s' v i s.jobs refl at e
Inv-step n (quits i) s s' v h =
    let (at, stopped, e) = quits_from i s s' h in subst (Inv n) e (Inv-quits n s v i at stopped)
Inv-step n (delivers i) s s' v h = Inv-deliver n s s' v i (get_elem? s.workers i) refl h
Inv-step n cancels s s' v h = subst (Inv n) (ground (arith, h)) (Inv-cancels n s v)
Inv-step n notices s s' v h = subst (Inv n) (ground (arith, h)) (Inv-flags n s true s.gone v)
Inv-step n closes s s' v h =
    let (sent, idle, e) = closes_from s s' h in subst (Inv n) e (Inv-closes n s v sent idle)
Inv-step n leaves s s' v h =
    subst (Inv n) (ground (arith, h)) (Inv-flags n s s.is_shutting_down true v)

Inv-run : (n : ℕ) (es : List Event) (s s' : Crew) → Inv n s → run es s ≡ some s' → Inv n s'
unfolding run
Inv-run n [] s s' v h = subst (Inv n) (some-injective h) v
Inv-run n (e ∷ es) s s' v h = elim (Option-cases (step e s)) [
  | inl stuck ↦
      let over : run (e ∷ es) s ≡ none = rw (run, stuck) refl in
      absurd (ground (arith, sym over ∙ h))
  | inr (m, moves) ↦
      let on : run (e ∷ es) s ≡ run es m = rw (run, moves) refl in
      Inv-run n es m s' (Inv-step n e s m v moves) (sym on ∙ h)
]

Inv-start_crew :
    (d : Downloader)
    → IsSequential d
    → d.last_selected_piece_index ≡ 0
    → Inv (length d.queue.pieces) (start_crew d)
Inv-start_crew d mode start = record {
  total = refl;
  mode = mode;
  within = omega (arith, start);
  once = λ p. ground (arith, start);
  ordered = tt;
  over = λ o. absurd (omega (arith, o));
  drained = λ c f. absurd (omega (arith, f));
  begun = λ b. absurd (ground (arith, b));
  complete = λ c. absurd (ground (arith, c));
  done = λ c r. absurd (ground (arith, r));
}

Inv-run_from_new :
    (total size : ℕ) (d : Downloader) (es : List Event) (s : Crew)
    → 0 < size
    → new_torrent_downloader total size ≡ ok d
    → run es (start_crew d) ≡ some s
    → Inv (length d.queue.pieces) s
Inv-run_from_new total size d es s some_size made runs =
    let (d', made', mode, start, tiles) =
      new_torrent_downloader-IsSequential total size some_size in
    let same : d' ≡ d = ok-injective d' d (sym made' ∙ made) in
    Inv-run (length d.queue.pieces) es (start_crew d) s
      (Inv-start_crew d (subst IsSequential same mode)
        (ap (λ x. x.last_selected_piece_index) (sym same) ∙ start))
      runs

-- From a new downloader with a positive piece length, after any order of events of its workers and
-- of the routine that hands out pieces, cancelled or not: each piece below the next index is once
-- among the written pieces, those that workers hold, and the jobs, and no other piece is there.
pub run_once :
    (total size : ℕ) (d : Downloader) (es : List Event) (s : Crew) (p : ℕ)
    → 0 < size
    → new_torrent_downloader total size ≡ ok d
    → run es (start_crew d) ≡ some s
    → count p s.written + weigh (holds p) s.workers + queued p s.jobs
      ≡ (if ltb p s.downloader.last_selected_piece_index then 1 else 0)
run_once total size d es s p some_size made runs =
    (Inv-run_from_new total size d es s some_size made runs).once p

-- From a new downloader with a positive piece length, when completion has been reported and the
-- downloader has not been cancelled, each piece of the torrent has been given to the writer once.
pub run_reported :
    (total size : ℕ) (d : Downloader) (es : List Event) (s : Crew) (p : ℕ)
    → 0 < size
    → new_torrent_downloader total size ≡ ok d
    → run es (start_crew d) ≡ some s
    → s.cancelled ≡ false
    → s.reported ≡ true
    → p < length d.queue.pieces
    → count p s.written ≡ 1
run_reported total size d es s p some_size made runs on reported below =
    let v = Inv-run_from_new total size d es s some_size made runs in
    v.done on reported p (omega (arith, below, v.total))

pub run_written_below :
    (total size : ℕ) (d : Downloader) (es : List Event) (s : Crew) (p : ℕ)
    → 0 < size
    → new_torrent_downloader total size ≡ ok d
    → run es (start_crew d) ≡ some s
    → 0 < count p s.written
    → p < length d.queue.pieces
run_written_below total size d es s p some_size made runs there =
    let v = Inv-run_from_new total size d es s some_size made runs in
    ground (arith, v.once p, v.total, v.within)
