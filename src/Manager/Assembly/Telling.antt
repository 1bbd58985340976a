-- ===== src/Manager/Assembly/Telling.antt =====
-- What subscribers are told: the kept messages make no difference.
use dawn_torrent.Base.{ℕ, ◌≡◌, refl, ap, ◌∙◌, List, [], ◌∷◌, Bytes, map, Option-cases, inl, inr}
use dawn_torrent.Torrent.{Torrent}
use dawn_torrent.Torrent
use dawn_torrent.Tracker.Announcer.{Url}
use dawn_torrent.Tracker.Announcer.Listing
use dawn_torrent.Manager.Assembly.{TorrentManager, TorrentState, serialize, notify, notify_loop}

module _ (join : Bytes → Bytes → Bytes) (to_text : Url → Bytes) where
  -- A second message is the first one, and changes nothing more.
  serialize_again :
      (m : TorrentManager)
      → serialize join to_text (serialize join to_text m).1 ≡ serialize join to_text m
  unfolding serialize Torrent.serialize Listing.serialize
  serialize_again m = elim (Option-cases m.torrent.serialized_state) [
    | inl fresh ↦ elim (Option-cases m.scrapper.serialized_state) [
      | inl unlisted ↦ rw (fresh, unlisted) refl
      | inr (trackers, listed) ↦ rw (fresh, listed) refl
    ]
    | inr (info, kept) ↦ elim (Option-cases m.scrapper.serialized_state) [
      | inl unlisted ↦ rw (kept, unlisted) refl
      | inr (trackers, listed) ↦ rw (kept, listed) refl
    ]
  ]

  notify_loop_same :
      (subscribers : List ℕ) (m : TorrentManager)
      → (notify_loop join to_text subscribers m).0
        ≡ map {B = ℕ × TorrentState} (λ s. (s, (serialize join to_text m).0)) subscribers
  unfolding notify_loop
  notify_loop_same [] m = refl
  notify_loop_same (s ∷ rest) m =
      let r = serialize join to_text m in
      λ i.
        ((s, r.0)
          ∷ (notify_loop_same rest r.1
                ∙ ap (λ q. map {B = ℕ × TorrentState} (λ x. (x, q.0)) rest) (serialize_again m))
              i)

  notify_loop_after :
      (subscribers : List ℕ) (m : TorrentManager)
      → let after = (notify_loop join to_text subscribers m).1 in
        ((serialize join to_text after).0 ≡ (serialize join to_text m).0)
        × (after.subscribers ≡ m.subscribers)
  unfolding notify_loop serialize
  notify_loop_after [] m = (refl, refl)
  notify_loop_after (s ∷ rest) m =
      let r = serialize join to_text m in
      let (state, listed) = notify_loop_after rest r.1 in
      (state ∙ ap (λ q. q.0) (serialize_again m), listed)

  -- `notify` gives every subscriber one and the same state, that of the manager as it stands, in the
  -- order in which they subscribed. The messages of the torrent and of the announcer that the first
  -- call has kept make no difference: a second `notify` gives the same again.
  pub notify_same :
      (m : TorrentManager)
      → let told =
          map {B = ℕ × TorrentState} (λ s. (s, (serialize join to_text m).0)) m.subscribers in
        ((notify join to_text m).0 ≡ told)
        × ((notify join to_text (notify join to_text m).1).0 ≡ told)
  unfolding notify
  notify_same m = (
    notify_loop_same m.subscribers m,
    let after = (notify_loop join to_text m.subscribers m).1 in
        let (state, listed) = notify_loop_after m.subscribers m in
        notify_loop_same after.subscribers after
        ∙ (λ i. map {B = ℕ × TorrentState} (λ s. (s, state i)) (listed i)),
  )
