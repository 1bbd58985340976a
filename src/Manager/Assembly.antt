-- ===== src/Manager/Assembly.antt =====
-- core/torrent_manager.go: the parts of a torrent's manager, how they are made, what subscribers are
-- told of them, and the routing of messages. Subscribers are numbers.
pub mod Ready
pub mod Telling
pub mod Receiving
use dawn_torrent.Base.{ℕ, List, [], ◌∷◌, ◌++◌, Bytes, Option, Result, ok, err, panic, ◌>>=◌}
use dawn_torrent.Base.Int.{ℤ}
use dawn_torrent.Wire.{TorrentMsg}
use dawn_torrent.Torrent.{Torrent, TorrentInfo, Codec, create_new_torrent, int32}
use dawn_torrent.Torrent
use dawn_torrent.Swarm.{Swarm}
use dawn_torrent.Swarm.Upkeep.{SwarmState, new_peer_manager}
use dawn_torrent.Swarm.Upkeep
use dawn_torrent.Downloader.{Downloader, new_torrent_downloader}
use dawn_torrent.Handlers.{Session, handle_msg}
use dawn_torrent.Tracker.Announcer.{Url, Announcer}
use dawn_torrent.Tracker.Announcer.Listing.{new_announcer}
use dawn_torrent.Tracker.Announcer.Listing
use dawn_torrent.Manager.Signals.{Desk, new_desk}

pub record TorrentManager : Type 0 where
  pub id : Bytes
  pub torrent : Torrent
  pub peer_manager : Swarm
  pub uploaded : ℕ
  pub total_downloaded : ℕ
  pub left : ℕ
  pub desk : Desk
  pub scrapper : Announcer
  pub downloader : Downloader
  pub subscribers : List ℕ

abbrev pub assembled : Torrent → Announcer → Downloader → TorrentManager
assembled t a d = record {
  id = t.info_hash_hex;
  torrent = t;
  peer_manager = new_peer_manager t.info_hash;
  uploaded = 0;
  total_downloaded = 0;
  left = 0;
  desk = new_desk;
  scrapper = a;
  downloader = d;
  subscribers = [];
}

-- An error that goes to `log.Fatal`.
fatal : {A : Type 0} → Result A → Result A
fatal (ok a) = ok a
fatal (err e) = panic
fatal panic = panic

-- `NewTorrentManager` on the content of the torrent file, `none` where it cannot be read.
unfoldable pub new_torrent_manager :
    Codec → (Bytes → Option Url) → Option Bytes → Result TorrentManager
unfolding fatal create_new_torrent new_torrent_downloader new_announcer
new_torrent_manager codec parse file = do
  t ← create_new_torrent codec file
  d ← new_torrent_downloader t.length t.piece_length
  a ← fatal (new_announcer parse t.announce t.announce_list)
  ok (assembled t a d)

unfoldable pub get_announce_list : TorrentManager → List Bytes
get_announce_list m = m.torrent.announce_list

unfoldable pub get_stats : TorrentManager → ℕ × ℕ × ℕ
get_stats m = (m.total_downloaded, m.uploaded, m.left)

unfoldable pub subscribe_to_state_change : ℕ → TorrentManager → TorrentManager
subscribe_to_state_change subscriber m = record m {
  subscribers = m.subscribers ++ (subscriber ∷ []);
}

-- rpc/torrent_state: `Stats`, without the fields that are always 0, and `TorrentState`.
pub record Stats : Type 0 where
  pub bitfield : Bytes
  pub torrent_length : ℤ

pub record TorrentState : Type 0 where
  pub infohash : Bytes
  pub torrent : TorrentInfo
  pub stats : Stats
  pub trackers : List Bytes
  pub peer_swarm : SwarmState

-- `serialize` of core/downloader.go.
unfoldable pub serialize_stats : Downloader → Stats
unfolding int32
serialize_stats d = record { bitfield = d.bitfield; torrent_length = int32 d.torrent_length }

module _ (join : Bytes → Bytes → Bytes) (to_text : Url → Bytes) where
  unfoldable pub serialize : TorrentManager → TorrentState × TorrentManager
  unfolding Torrent.serialize Listing.serialize Upkeep.serialize serialize_stats
  serialize m =
      let (info, t) = Torrent.serialize join m.torrent in
      let (trackers, a) = Listing.serialize to_text m.scrapper in
      (
        record {
          infohash = m.torrent.info_hash_hex;
          torrent = info;
          stats = serialize_stats m.downloader;
          trackers = trackers;
          peer_swarm = Upkeep.serialize m.peer_manager;
        },
        record m { torrent = t; scrapper = a },
      )

  notify_loop : List ℕ → TorrentManager → List (ℕ × TorrentState) × TorrentManager
  unfolding serialize
  notify_loop [] m = ([], m)
  notify_loop (subscriber ∷ rest) m =
      let (state, m') = serialize m in
      let later = notify_loop rest m' in ((subscriber, state) ∷ later.0, later.1)

  -- The states that are given to the subscribers, each with its subscriber.
  unfoldable pub notify : TorrentManager → List (ℕ × TorrentState) × TorrentManager
  unfolding notify_loop
  notify m = notify_loop m.subscribers m

-- `msgRouter` on the messages of its channel; it makes no use of its context.
unfoldable pub msg_router : List TorrentMsg → TorrentManager → Result TorrentManager
unfolding handle_msg
msg_router [] m = ok m
msg_router (msg ∷ msgs) m = do
  s ← handle_msg msg (record { peers = m.peer_manager.peers; downloader = m.downloader })
  msg_router msgs (record m {
    peer_manager = record (m.peer_manager) { peers = s.peers };
    downloader = s.downloader;
  })
