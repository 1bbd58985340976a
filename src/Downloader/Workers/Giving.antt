-- ===== src/Downloader/Workers/Giving.antt =====
-- core/downloader.go: what holds of the workers when a piece or the end is handed out, and when they
-- are cancelled or done.
use dawn_torrent.Base.{
  ℕ, ◌+◌, ◌≤◌, ◌<◌, ◌≡◌, ap, ◌∙◌, Bool, true, [], ◌∷◌, ◌++◌, none, some, get_elem?, ltb, ◌==◌,
  if◌then◌else◌, dec_lt, arith,
}
use dawn_torrent.Downloader.Selection.{advance}
use dawn_torrent.Downloader.Workers.Counting.{
  weigh-set, weigh-le, holds, ended, nils, queued-append_some, append_nil, append_some,
  NilsLast-append_nil, queued-le, holds-le,
}
use dawn_torrent.Downloader.Workers.{signalling, waiting, Crew, weigh, active, move}
use dawn_torrent.Downloader.Workers.Handing.{Inv, pieces_of, next_of}

-- The next piece is the one that is new among those below the next index.
next_is_new :
    (p k : ℕ)
    → (if ltb p (k + 1) then 1 else 0) ≡ (if ltb p k then 1 else 0) + (if p == k then 1 else 0)
next_is_new p k = ground arith

module _ (n : ℕ) (s : Crew) (v : Inv n s) (i : ℕ) where
  -- What `hand_out` makes of the crew for a piece, and for the end.
  pub Inv-hands_piece :
      (sent complete : Bool)
      → (complete ≡ true → s.is_completed ≡ true)
      → get_elem? s.workers i ≡ some signalling
      → next_of s < pieces_of s
      → Inv n (record (move i waiting s) {
        downloader = advance s.downloader;
        jobs = s.jobs ++ (some (next_of s) ∷ []);
        sent_shut_down_signal = sent;
        is_completed = complete;
      })
  Inv-hands_piece sent complete before at more =
      let no_nils : nils s.jobs ≡ 0 = elim (dec_lt 0 (nils s.jobs)) [
        | yes some_nil ↦ absurd (omega (arith, more, v.over some_nil))
        | no none_yet ↦ omega arith
      ] in
      let jobs' = append_some s.jobs (next_of s) no_nils in
      record {
        total = v.total;
        mode = record { mode = v.mode.mode; selected = ap (λ n. n + 1) v.mode.selected };
        within = omega (arith, more);
        once = λ p. omega (
          arith,
          v.once p,
          queued-append_some p s.jobs (next_of s),
          next_is_new p (next_of s),
          weigh-set (holds p) s.workers i signalling waiting at,
        );
        ordered = jobs'.0;
        over = λ o. absurd (omega (arith, o, jobs'.1));
        drained = λ c f. absurd (
            omega (
              arith,
              more,
              (v.drained c (omega (arith, f, weigh-set ended s.workers i signalling waiting at))).1,
            ));
        begun = λ b. omega (
          arith,
          weigh-set active s.workers i signalling waiting at,
          weigh-le active s.workers i signalling at,
        );
        complete = λ done. absurd (omega (arith, more, v.complete (before done)));
        done = v.done;
      }

  pub Inv-hands_nil :
      (sent complete : Bool)
      → get_elem? s.workers i ≡ some signalling
      → pieces_of s ≤ next_of s
      → Inv n (record (move i waiting s) {
        jobs = s.jobs ++ (none ∷ []);
        sent_shut_down_signal = sent;
        is_completed = complete;
      })
  Inv-hands_nil sent complete at over = record {
    total = v.total;
    mode = v.mode;
    within = v.within;
    once = λ p. omega (
      arith,
      v.once p,
      (append_nil p s.jobs).0,
      weigh-set (holds p) s.workers i signalling waiting at,
    );
    ordered = NilsLast-append_nil s.jobs v.ordered;
    over = λ o. over;
    drained = λ c f. (
      (append_nil 0 s.jobs).1
          ∙ (v.drained c (omega (arith, f, weigh-set ended s.workers i signalling waiting at))).0,
      over,
    );
    begun = λ b. omega (
      arith,
      weigh-set active s.workers i signalling waiting at,
      weigh-le active s.workers i signalling at,
    );
    complete = λ done. over;
    done = v.done;
  }

pub Inv-flags :
    (n : ℕ) (s : Crew) (shutting gone : Bool)
    → Inv n s
    → Inv n (record s { is_shutting_down = shutting; gone = gone })
Inv-flags n s shutting gone v = record {
  total = v.total;
  mode = v.mode;
  within = v.within;
  once = v.once;
  ordered = v.ordered;
  over = v.over;
  drained = v.drained;
  begun = v.begun;
  complete = v.complete;
  done = v.done;
}

pub Inv-cancels : (n : ℕ) (s : Crew) → Inv n s → Inv n (record s { cancelled = true })
Inv-cancels n s v = record {
  total = v.total;
  mode = v.mode;
  within = v.within;
  once = v.once;
  ordered = v.ordered;
  over = v.over;
  drained = λ c f. absurd (ground (arith, c));
  begun = v.begun;
  complete = v.complete;
  done = λ c. absurd (ground (arith, c));
}

-- When the routine that waits for the workers reports completion, each piece has been written.
pub Inv-closes :
    (n : ℕ) (s : Crew)
    → Inv n s
    → s.sent_shut_down_signal ≡ true
    → weigh active s.workers ≡ 0
    → Inv n (record s { closed = true; reported = s.is_completed })
Inv-closes n s v sent idle = record {
  total = v.total;
  mode = v.mode;
  within = v.within;
  once = v.once;
  ordered = v.ordered;
  over = v.over;
  drained = v.drained;
  begun = v.begun;
  complete = v.complete;
  done = λ c r p below.
      let (no_jobs, all) = v.drained c (omega (arith, v.begun sent, idle)) in
      ground (arith, v.once p, queued-le p s.jobs, holds-le p s.workers, no_jobs, all, idle, below);
}
