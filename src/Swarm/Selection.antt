-- ===== src/Swarm/Selection.antt =====
-- Which peer a worker gets.
use dawn_torrent.Base.{
  ℕ, zero, suc, ◌≤◌, ◌<◌, ◌≡◌, ◌≢◌, refl, inl, inr, true, false, List, [], ◌∷◌, Bytes, Option, none,
  some, Option-cases, Bool-cases, subst, subst₂, ◌∙◌, sym, get_elem?, set, length,
  get_elem?-set_self, get_elem?-set_ne, All, arith,
}
use dawn_torrent.Base.Int.{ℤ, pos, negsuc, suc_ℤ, pred_ℤ}
use dawn_torrent.Peer.{Peer, is_available, has_piece, max_piece_per_peer}
use dawn_torrent.Swarm.{select_peer, release_peer}

-- Between 0 and 3 pieces are counted for the peer.
abbrev pub IsWithin : ℤ → Type 0
IsWithin (pos n) = n ≤ max_piece_per_peer
IsWithin (negsuc n) = ⊥

abbrev pub AreWithin : List Peer → Type 0
AreWithin = All (λ p. IsWithin p.is_free)

AreWithin-set :
    (peers : List Peer) (i : ℕ) (p : Peer)
    → AreWithin peers
    → IsWithin p.is_free
    → AreWithin (set peers i p)
AreWithin-set [] i p h k = h
AreWithin-set (x ∷ xs) zero p h k = (k, h.1)
AreWithin-set (x ∷ xs) (suc i) p h k = (h.0, AreWithin-set xs i p h.1 k)

AreWithin-get :
    (peers : List Peer) (i : ℕ) (p : Peer)
    → AreWithin peers
    → get_elem? peers i ≡ some p
    → IsWithin p.is_free
AreWithin-get [] i p h e = cc
AreWithin-get (x ∷ xs) zero p h e =
    let same : x ≡ p = ground arith in subst (λ y. IsWithin y.is_free) same h.0
AreWithin-get (x ∷ xs) (suc i) p h e = AreWithin-get xs i p h.1 e

IsWithin-suc : (z : ℤ) → IsWithin z → z ≢ pos 3 → IsWithin (suc_ℤ z)
IsWithin-suc (pos n) h ne = ground arith
IsWithin-suc (negsuc n) h ne = absurd h

available_iff :
    (p : Peer) (piece : ℕ)
    → is_available p piece ≡ true
    → (p.is_choking ≡ false) × (has_piece p piece ≡ true) × (p.is_free ≢ pos 3)
unfolding is_available
available_iff p piece h = (ground arith, ground arith, ground arith)

-- What holds of a selected peer and of the peers afterwards.
pub record Selected (piece : ℕ) (peers after : List Peer) (i : ℕ) : Type 0 where
  pub peer : Peer
  pub known : get_elem? peers i ≡ some peer
  pub not_choking : peer.is_choking ≡ false
  pub possesses : has_piece peer piece ≡ true
  pub changed : after ≡ set peers i (record peer { is_free = suc_ℤ peer.is_free })
  pub within : AreWithin after

get_elem?_below : (xs : List Peer) (i : ℕ) (p : Peer) → get_elem? xs i ≡ some p → i < length xs
get_elem?_below [] i p e = cc
get_elem?_below (x ∷ xs) zero p e = omega arith
get_elem?_below (x ∷ xs) (suc i) p e = omega (arith, get_elem?_below xs i p e)

take_peer :
    (piece : ℕ) (peers : List Peer) (p : Peer) (k : ℕ)
    → AreWithin peers
    → is_available p piece ≡ true
    → get_elem? peers k ≡ some p
    → Selected piece peers (set peers k (record p { is_free = suc_ℤ p.is_free })) k
take_peer piece peers p k within free at =
    let (open_peer, has, room) = available_iff p piece free in
    let p' = record p { is_free = suc_ℤ p.is_free } in
    record {
      peer = p;
      known = at;
      not_choking = open_peer;
      possesses = has;
      changed = refl;
      within =
          AreWithin-set peers k p' within
            (IsWithin-suc p.is_free (AreWithin-get peers k p within at) room);
    }

taken :
    (piece : ℕ) (peers after : List Peer) (p : Peer) (k i : ℕ)
    → AreWithin peers
    → is_available p piece ≡ true
    → get_elem? peers k ≡ some p
    → ◌≡◌ {A = Option (ℕ × List Peer)}
        (some (k, set peers k (record p { is_free = suc_ℤ p.is_free })))
        (some (i, after))
    → Selected piece peers after i
taken piece peers after p k i within free at e =
    let same : k ≡ i = ground arith in
    let rest : set peers k (record p { is_free = suc_ℤ p.is_free }) ≡ after = ground arith in
    subst₂ (λ l j. Selected piece peers l j) rest same (take_peer piece peers p k within free at)

module _ (id : Bytes) (k : ℕ) (rest : List (Bytes × ℕ)) (piece : ℕ) (peers : List Peer) where
  select_gone :
      get_elem? peers k ≡ none
      → select_peer ((id, k) ∷ rest) piece peers ≡ select_peer rest piece peers
  unfolding select_peer
  select_gone e = ground (arith, e)

  select_busy :
      (p : Peer)
      → get_elem? peers k ≡ some p
      → is_available p piece ≡ false
      → select_peer ((id, k) ∷ rest) piece peers ≡ select_peer rest piece peers
  unfolding select_peer
  select_busy p e busy = ground (arith, e, busy)

  select_free :
      (p : Peer)
      → get_elem? peers k ≡ some p
      → is_available p piece ≡ true
      → select_peer ((id, k) ∷ rest) piece peers
        ≡ some (k, set peers k (record p { is_free = suc_ℤ p.is_free }))
  unfolding select_peer
  select_free p e free = ground (arith, e, free)

-- While no peer counts more than three pieces: a selected peer does not choke, has the piece and
-- counts one piece more afterwards, no other peer changes, and no peer counts more than three.
pub select_peer-some :
    (active : List (Bytes × ℕ)) (piece : ℕ) (peers after : List Peer) (i : ℕ)
    → AreWithin peers
    → select_peer active piece peers ≡ some (i, after)
    → Selected piece peers after i
unfolding select_peer
select_peer-some [] piece peers after i within e = cc
select_peer-some ((id, k) ∷ rest) piece peers after i within e =
    elim (Option-cases (get_elem? peers k)) [
      | inl gone ↦
          select_peer-some rest piece peers after i within
            (sym (select_gone id k rest piece peers gone) ∙ e)
      | inr (p, at) ↦ elim (Bool-cases (is_available p piece)) [
        | inl free ↦
            taken piece peers after p k i within free at
              (sym (select_free id k rest piece peers p at free) ∙ e)
        | inr busy ↦
            select_peer-some rest piece peers after i within
              (sym (select_busy id k rest piece peers p at busy) ∙ e)
      ]
    ]

select_peer-none :
    (active : List (Bytes × ℕ)) (piece : ℕ) (peers : List Peer)
    → select_peer active piece peers ≡ none
    → All
        (λ (entry : Bytes × ℕ).
          (p : Peer) → get_elem? peers entry.1 ≡ some p → is_available p piece ≡ false)
        active
unfolding select_peer
select_peer-none [] piece peers e = tt
select_peer-none ((id, k) ∷ rest) piece peers e = elim (Option-cases (get_elem? peers k)) [
  | inl gone ↦ (
    λ p at. cc (gone, at),
    select_peer-none rest piece peers (sym (select_gone id k rest piece peers gone) ∙ e),
  )
  | inr (p, at) ↦ elim (Bool-cases (is_available p piece)) [
    | inl free ↦ absurd (never p (sym (select_free id k rest piece peers p at free) ∙ e))
    | inr busy ↦ (
      λ q at'. ground (arith, at, at', busy),
      select_peer-none rest piece peers (sym (select_busy id k rest piece peers p at busy) ∙ e),
    )
  ]
]
  where
    never :
        (p : Peer)
        → ◌≡◌ {A = Option (ℕ × List Peer)}
            (some (k, set peers k (record p { is_free = suc_ℤ p.is_free })))
            none
        → ⊥
    never p e = cc

All-get_elem? :
    (P : Bytes × ℕ → Type 0) (xs : List (Bytes × ℕ)) (k : ℕ) (x : Bytes × ℕ)
    → All P xs
    → get_elem? xs k ≡ some x
    → P x
All-get_elem? P [] k x h e = cc
All-get_elem? P (y ∷ ys) zero x h e = let same : y ≡ x = ground arith in subst P same h.0
All-get_elem? P (y ∷ ys) (suc k) x h e = All-get_elem? P ys k x h.1 e

-- A worker waits only while no connected peer is available for its piece.
pub select_peer_waits :
    (active : List (Bytes × ℕ)) (piece : ℕ) (peers : List Peer) (k i : ℕ) (id : Bytes) (p : Peer)
    → select_peer active piece peers ≡ none
    → get_elem? active k ≡ some (id, i)
    → get_elem? peers i ≡ some p
    → is_available p piece ≡ false
select_peer_waits active piece peers k i id p e at known =
    All-get_elem?
      (λ (entry : Bytes × ℕ).
        (q : Peer) → get_elem? peers entry.1 ≡ some q → is_available q piece ≡ false)
      active k (id, i) (select_peer-none active piece peers e) at p known

pred-suc : (z : ℤ) → pred_ℤ (suc_ℤ z) ≡ z
pred-suc (pos n) = refl
pred-suc (negsuc zero) = refl
pred-suc (negsuc (suc n)) = refl

-- Selecting a peer and releasing it when the piece is there leaves every peer's count as it was.
pub release_peer-select_peer :
    (active : List (Bytes × ℕ)) (piece : ℕ) (peers after : List Peer) (i : ℕ)
    → AreWithin peers
    → select_peer active piece peers ≡ some (i, after)
    → (j : ℕ) → get_elem? (release_peer i after) j ≡ get_elem? peers j
unfolding release_peer
release_peer-select_peer active piece peers after i within e j =
    let s = select_peer-some active piece peers after i within e in
    let p = s.peer in
    let p' = record p { is_free = suc_ℤ p.is_free } in
    let q = record p { is_free = pred_ℤ (suc_ℤ p.is_free) } in
    let inside = get_elem?_below peers i p s.known in
    let counted : get_elem? after i ≡ some p' =
      rw s.changed (get_elem?-set_self peers i p' inside) in
    let others : i ≢ j → get_elem? after j ≡ get_elem? peers j =
      λ ne. rw s.changed (get_elem?-set_ne peers i j p' ne) in
    ground (
      arith,
      counted,
      s.known,
      others,
      pred-suc p.is_free,
      get_elem?-set_self after i q (get_elem?_below after i p' counted),
      get_elem?-set_ne after i j q,
    )
