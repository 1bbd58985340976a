-- ===== src/Manager/Signals/Order.antt =====
-- The manager handles the signals in the order in which they were sent.
use dawn_torrent.Base.{
  ℕ, ◌≤◌, Bool, ◌≡◌, refl, sym, ap, ◌∙◌, subst, true, false, List, [], ◌∷◌, ◌++◌, Option, none,
  some, Result, ok, err, panic, ◌>>=◌, length, Bool-cases, inl, inr, arith,
}
use mathlib.Core.List.{append-nil, append_assoc}
use dawn_torrent.Manager.{Manager, new_manager, run, handle_signal}
use dawn_torrent.Manager.Signals.{
  Desk, new_desk, set_state, handled, receive, init_round, stop, Move, sends, receives, closes,
  move, moves,
}

-- The signals that the moves send, in their order.
abbrev pub sent : List Move → List ℕ
sent [] = []
sent (sends signal ∷ ms) = signal ∷ sent ms
sent (receives ∷ ms) = sent ms
sent (closes ∷ ms) = sent ms

module _ (returns : ℕ → Bool) where
  bind-run_nil : (r : Result Manager) → (r >>= run returns []) ≡ r
  unfolding run
  bind-run_nil (ok m) = refl
  bind-run_nil (err e) = refl
  bind-run_nil panic = refl

  run-append :
      (xs : List ℕ) (x : ℕ) (m n : Manager)
      → run returns xs m ≡ ok n
      → run returns (xs ++ (x ∷ [])) m ≡ handle_signal returns x n
  unfolding run
  run-append [] x m n h =
      let same : m ≡ n = ground (arith, h) in
      bind-run_nil (handle_signal returns x m) ∙ ap (handle_signal returns x) same
  run-append (y ∷ ys) x m n h = after (handle_signal returns y m) h (λ k. run-append ys x k n)
    where
      after :
          (r : Result Manager)
          → (r >>= run returns ys) ≡ ok n
          → ((k : Manager)
              → run returns ys k ≡ ok n
              → run returns (ys ++ (x ∷ [])) k ≡ handle_signal returns x n)
          → (r >>= run returns (ys ++ (x ∷ []))) ≡ handle_signal returns x n
      after (ok k) e further = further k e
      after (err e') e further = absurd (ground (arith, e))
      after panic e further = absurd (ground (arith, e))

  -- While the channel is unclosed: what was sent has been handled, but for what is in the channel.
  pub record InOrder (out : List ℕ) (d : Desk) : Type 0 where
    pub handled_signals : List ℕ
    pub runs : run returns handled_signals new_manager ≡ ok d.manager
    pub order : out ≡ handled_signals ++ d.state_chan
    pub short : length d.state_chan ≤ 1

  InOrder-sends :
      (out : List ℕ) (signal : ℕ) (d d' : Desk)
      → InOrder out d
      → set_state signal d ≡ some (ok d')
      → InOrder (out ++ (signal ∷ [])) d'
  unfolding set_state
  InOrder-sends out signal d d' v h =
      let waited : d.state_chan ≡ [] = ground (arith, h, v.short) in
      let same : d' ≡ record d { state_chan = d.state_chan ++ (signal ∷ []) } = ground (arith, h) in
      subst (InOrder (out ++ (signal ∷ []))) (sym same) (record {
        handled_signals = v.handled_signals;
        runs = v.runs;
        order =
            ap (λ l. l ++ (signal ∷ [])) v.order
            ∙ append_assoc v.handled_signals d.state_chan (signal ∷ []);
        short = ground (arith, waited);
      })

  InOrder-receives :
      (out : List ℕ) (chan : List ℕ) (d d' : Desk)
      → d.state_chan ≡ chan
      → d.is_closed ≡ false
      → InOrder out d
      → receive returns chan d ≡ some (ok d')
      → InOrder out d' × (d'.is_closed ≡ false)
  unfolding receive handled
  InOrder-receives out [] d d' at unclosed v h = absurd (ground (arith, h, unclosed))
  InOrder-receives out (x ∷ rest) d d' at unclosed v h =
      after (handle_signal returns x d.manager) refl h
    where
      after :
          (r : Result Manager)
          → handle_signal returns x d.manager ≡ r
          → ◌≡◌ {A = Option (Result Desk)}
              (some (r >>= λ m. ok (record d { manager = m; state_chan = rest })))
              (some (ok d'))
          → InOrder out d' × (d'.is_closed ≡ false)
      after (ok m) e k =
          let same : d' ≡ record d { manager = m; state_chan = rest } = ground (arith, k) in
          subst (λ z. InOrder out z × (z.is_closed ≡ false)) (sym same)
            (
              record {
                handled_signals = v.handled_signals ++ (x ∷ []);
                runs = run-append v.handled_signals x new_manager d.manager v.runs ∙ e;
                order =
                    v.order
                    ∙ ap (λ l. v.handled_signals ++ l) at
                    ∙ sym (append_assoc v.handled_signals (x ∷ []) rest);
                short = ground (arith, at, v.short);
              },
              unclosed,
            )
      after (err e') e k = absurd (ground (arith, k))
      after panic e k = absurd (ground (arith, k))

  handled-is_closed :
      (x : ℕ) (rest : List ℕ) (d d' : Desk)
      → handled returns x rest d ≡ ok d'
      → d'.is_closed ≡ d.is_closed
  unfolding handled
  handled-is_closed x rest d d' h = after (handle_signal returns x d.manager) h
    where
      after :
          (r : Result Manager)
          → ◌≡◌ {A = Result Desk}
              (r >>= λ m. ok (record d { manager = m; state_chan = rest }))
              (ok d')
          → d'.is_closed ≡ d.is_closed
      after (ok m) k = ground (arith, k)
      after (err e) k = absurd (ground (arith, k))
      after panic k = absurd (ground (arith, k))

  receive-is_closed :
      (chan : List ℕ) (d d' : Desk)
      → receive returns chan d ≡ some (ok d')
      → d'.is_closed ≡ d.is_closed
  unfolding receive
  receive-is_closed (x ∷ rest) d d' h = handled-is_closed x rest d d' (ground (arith, h))
  receive-is_closed [] d d' h = handled-is_closed 0 [] d d' (ground (arith, h))

  -- No move opens a closed channel.
  move-closed :
      (m : Move) (d d' : Desk)
      → d.is_closed ≡ true
      → move returns m d ≡ some (ok d')
      → d'.is_closed ≡ true
  unfolding move set_state stop init_round
  move-closed (sends x) d d' c h = absurd (ground (arith, c, h))
  move-closed closes d d' c h = absurd (ground (arith, c, h))
  move-closed receives d d' c h = receive-is_closed d.state_chan d d' h ∙ c

  InOrder-move :
      (m : Move) (out : List ℕ) (d d' : Desk)
      → InOrder out d
      → d.is_closed ≡ false
      → d'.is_closed ≡ false
      → move returns m d ≡ some (ok d')
      → InOrder (out ++ sent (m ∷ [])) d'
  unfolding move init_round stop
  InOrder-move (sends x) out d d' v c c' h = InOrder-sends out x d d' v h
  InOrder-move receives out d d' v c c' h =
      subst (λ l. InOrder l d') (sym (append-nil out))
        (InOrder-receives out d.state_chan d d' refl c v h).0
  InOrder-move closes out d d' v c c' h = absurd (ground (arith, c, c', h))

  sent-append : (m : Move) (ms : List Move) → sent (m ∷ []) ++ sent ms ≡ sent (m ∷ ms)
  sent-append (sends x) ms = refl
  sent-append receives ms = refl
  sent-append closes ms = refl

  -- One move that neither waits nor panics, and the others.
  first_move :
      (m : Move) (ms : List Move) (d d' : Desk)
      → moves returns (m ∷ ms) d ≡ some d'
      → (e : Desk) × (move returns m d ≡ some (ok e)) × (moves returns ms e ≡ some d')
  unfolding moves
  first_move m ms d d' h = after (move returns m d) refl h
    where
      after :
          (r : Option (Result Desk))
          → move returns m d ≡ r
          → ◌≡◌ {A = Option Desk}
              (elim r as (λ _. Option Desk) [ some (ok e) ↦ moves returns ms e | _ ↦ none ])
              (some d')
          → (e : Desk) × (move returns m d ≡ some (ok e)) × (moves returns ms e ≡ some d')
      after none at k = absurd (ground (arith, k))
      after (some (ok e)) at k = (e, at, k)
      after (some (err x)) at k = absurd (ground (arith, k))
      after (some panic) at k = absurd (ground (arith, k))

  moves-closed :
      (ms : List Move) (d d' : Desk)
      → d.is_closed ≡ true
      → moves returns ms d ≡ some d'
      → d'.is_closed ≡ true
  unfolding moves
  moves-closed [] d d' c h =
      let same : d ≡ d' = ground (arith, h) in ap (λ x. x.is_closed) (sym same) ∙ c
  moves-closed (m ∷ ms) d d' c h =
      let (e, first, later) = first_move m ms d d' h in
      moves-closed ms e d' (move-closed m d e c first) later

  moves-InOrder :
      (ms : List Move) (out : List ℕ) (d d' : Desk)
      → InOrder out d
      → d'.is_closed ≡ false
      → moves returns ms d ≡ some d'
      → InOrder (out ++ sent ms) d'
  unfolding moves
  moves-InOrder [] out d d' v c h =
      let same : d ≡ d' = ground (arith, h) in
      subst (λ l. InOrder l d') (sym (append-nil out)) (subst (InOrder out) same v)
  moves-InOrder (m ∷ ms) out d d' v c h =
      let (e, first, later) = first_move m ms d d' h in
      let still : (x : Desk) → x.is_closed ≡ true → moves returns ms x ≡ some d' → ⊥ =
        λ x shut runs. absurd (ground (arith, moves-closed ms x d' shut runs, c)) in
      let unclosed : d.is_closed ≡ false = elim (Bool-cases d.is_closed) [
        | inl shut ↦ absurd (still e (move-closed m d e shut first) later)
        | inr it ↦ it
      ] in
      let unclosed' : e.is_closed ≡ false = elim (Bool-cases e.is_closed) [
        | inl shut ↦ absurd (still e shut later)
        | inr it ↦ it
      ] in
      subst (λ l. InOrder l d')
        (append_assoc out (sent (m ∷ [])) (sent ms) ∙ ap (λ l. out ++ l) (sent-append m ms))
        (moves-InOrder ms (out ++ sent (m ∷ [])) e d'
          (InOrder-move m out d e v unclosed unclosed' first) c later)

  -- However the routines interleave that send signals, and the manager that receives them: while the
  -- channel has not been closed, the manager stands where `run` takes a new manager on the signals that
  -- have been received, these are the signals in the order in which they were sent, and at most one more
  -- has been sent.
  pub moves-run :
      (ms : List Move) (d : Desk)
      → moves returns ms new_desk ≡ some d
      → d.is_closed ≡ false
      → (received : List ℕ) × (run returns received new_manager ≡ ok d.manager)
        × (sent ms ≡ received ++ d.state_chan)
        × (length d.state_chan ≤ 1)
  unfolding run
  moves-run ms d h c =
      let v =
        moves-InOrder ms [] new_desk d
          (record { handled_signals = []; runs = refl; order = refl; short = omega arith }) c h in
      (v.handled_signals, v.runs, v.order, v.short)
