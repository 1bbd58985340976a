-- ===== src/Downloader/Workers/Handing.antt =====
-- core/downloader.go: which pieces the workers have, whatever the order of their events.
use dawn_torrent.Base.{
  ℕ, ◌+◌, ◌≤◌, ◌<◌, ◌≡◌, ap, subst, true, false, List, [], ◌∷◌, ◌++◌, Option, none, some, length,
  get_elem?, ltb, if◌then◌else◌, arith,
}
use dawn_torrent.Downloader.Selection.{IsSequential}
use dawn_torrent.Downloader.Workers.Counting.{
  weigh-set, holds, ended, count, queued, somes, nils, NilsLast, count-append,
}
use dawn_torrent.Downloader.Workers.{
  unstarted, signalling, waiting, working, finished, Crew, weigh, active, move,
}

-- What holds of a crew at any time.
abbrev pub pieces_of : Crew → ℕ
pieces_of s = length s.downloader.queue.pieces

abbrev pub next_of : Crew → ℕ
next_of s = s.downloader.last_selected_piece_index

pub record Inv (n : ℕ) (s : Crew) : Type 0 where
  pub total : pieces_of s ≡ n
  pub mode : IsSequential s.downloader
  pub within : next_of s ≤ pieces_of s
  pub once :
      (p : ℕ)
      → count p s.written + weigh (holds p) s.workers + queued p s.jobs
        ≡ (if ltb p (next_of s) then 1 else 0)
  pub ordered : NilsLast s.jobs
  pub over : 0 < nils s.jobs → pieces_of s ≤ next_of s
  pub drained :
      s.cancelled ≡ false
      → 0 < weigh ended s.workers
      → (somes s.jobs ≡ 0) × (pieces_of s ≤ next_of s)
  pub begun : s.sent_shut_down_signal ≡ true → 0 < weigh active s.workers + weigh ended s.workers
  pub complete : s.is_completed ≡ true → pieces_of s ≤ next_of s
  pub done :
      s.cancelled ≡ false → s.reported ≡ true → (p : ℕ) → p < pieces_of s → count p s.written ≡ 1

module _ (n : ℕ) (s : Crew) (v : Inv n s) (i : ℕ) where
  pub Inv-starts : get_elem? s.workers i ≡ some unstarted → Inv n (move i signalling s)
  Inv-starts at = record {
    total = v.total;
    mode = v.mode;
    within = v.within;
    once = λ p. omega (arith, v.once p, weigh-set (holds p) s.workers i unstarted signalling at);
    ordered = v.ordered;
    over = v.over;
    drained =
        λ c f. v.drained c (omega (arith, f, weigh-set ended s.workers i unstarted signalling at));
    begun = λ b. omega (
      arith,
      weigh-set ended s.workers i unstarted signalling at,
      weigh-set active s.workers i unstarted signalling at,
    );
    complete = v.complete;
    done = v.done;
  }

  pub Inv-delivers :
      (q : ℕ)
      → get_elem? s.workers i ≡ some (working q)
      → Inv n (record (move i signalling s) { written = s.written ++ (q ∷ []) })
  Inv-delivers q at = record {
    total = v.total;
    mode = v.mode;
    within = v.within;
    once = λ p. omega (
      arith,
      v.once p,
      count-append p s.written q,
      weigh-set (holds p) s.workers i (working q) signalling at,
    );
    ordered = v.ordered;
    over = v.over;
    drained = λ c f.
        v.drained c (omega (arith, f, weigh-set ended s.workers i (working q) signalling at));
    begun = λ b. omega (
      arith,
      v.begun b,
      weigh-set ended s.workers i (working q) signalling at,
      weigh-set active s.workers i (working q) signalling at,
    );
    complete = v.complete;
    done = λ c r p below. ground (
      arith,
      v.done c r p below,
      v.once p,
      count-append p s.written q,
      weigh-set (holds p) s.workers i (working q) signalling at,
    );
  }

  pub Inv-takes_piece :
      (q : ℕ) (rest : List (Option ℕ))
      → get_elem? s.workers i ≡ some waiting
      → s.jobs ≡ some q ∷ rest
      → Inv n (record (move i (working q) s) { jobs = rest })
  Inv-takes_piece q rest at jobs = record {
    total = v.total;
    mode = v.mode;
    within = v.within;
    once = λ p. omega (
      arith,
      v.once p,
      ap (queued p) jobs,
      weigh-set (holds p) s.workers i waiting (working q) at,
    );
    ordered = subst NilsLast jobs v.ordered;
    over = λ o. v.over (omega (arith, o, ap nils jobs));
    drained = λ c f. absurd (
        omega (
          arith,
          ap somes jobs,
          (v.drained c (omega (arith, f, weigh-set ended s.workers i waiting (working q) at))).0,
        ));
    begun = λ b. omega (
      arith,
      v.begun b,
      weigh-set ended s.workers i waiting (working q) at,
      weigh-set active s.workers i waiting (working q) at,
    );
    complete = v.complete;
    done = v.done;
  }

  pub Inv-takes_nil :
      (rest : List (Option ℕ))
      → get_elem? s.workers i ≡ some waiting
      → s.jobs ≡ none ∷ rest
      → Inv n (record (move i finished s) { jobs = rest })
  Inv-takes_nil rest at jobs =
      let order = subst NilsLast jobs v.ordered in
      record {
        total = v.total;
        mode = v.mode;
        within = v.within;
        once = λ p. omega (
          arith,
          v.once p,
          ap (queued p) jobs,
          weigh-set (holds p) s.workers i waiting finished at,
        );
        ordered = order.1;
        over = λ o. v.over (omega (arith, o, ap nils jobs));
        drained = λ c f. (order.0, v.over (omega (arith, ap nils jobs)));
        begun = λ b. omega (arith, weigh-set ended s.workers i waiting finished at);
        complete = v.complete;
        done = v.done;
      }

  pub Inv-quits :
      get_elem? s.workers i ≡ some waiting → s.cancelled ≡ true → Inv n (move i finished s)
  Inv-quits at stopped = record {
    total = v.total;
    mode = v.mode;
    within = v.within;
    once = λ p. omega (arith, v.once p, weigh-set (holds p) s.workers i waiting finished at);
    ordered = v.ordered;
    over = v.over;
    drained = λ c f. absurd (ground (arith, c, stopped));
    begun = λ b. omega (arith, weigh-set ended s.workers i waiting finished at);
    complete = v.complete;
    done = v.done;
  }
