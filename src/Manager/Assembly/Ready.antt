-- ===== src/Manager/Assembly/Ready.antt =====
-- A new manager: its parts fit together.
use dawn_torrent.Base.{◌<◌, ◌≡◌, refl, List, Bytes, Option, some, ok, bind_ok}
use dawn_torrent.Torrent.{
  Torrent, Codec, create_new_torrent, or_error, read_info, calculate_info_hash,
}
use dawn_torrent.Torrent.Segments.{Chain}
use dawn_torrent.Downloader.Pieces.{Tiles}
use dawn_torrent.Downloader.Selection.{IsSequential, new_torrent_downloader-IsSequential}
use dawn_torrent.Downloader.Saving.{built-Chain}
use dawn_torrent.Tracker.Announcer.{Url, set_tracker_strategy, cancel}
use dawn_torrent.Tracker.Announcer.Listing.{first_tracker, literal, parse_all, new_announcer}
use dawn_torrent.Manager.{stopped, new_manager}
use dawn_torrent.Swarm.Upkeep.{new_peer_manager}
use dawn_torrent.Manager.Assembly.{TorrentManager, assembled, new_torrent_manager, fatal}

create_new_torrent-Chain :
    (codec : Codec) (file : Bytes) (u : Torrent)
    → create_new_torrent codec (some file) ≡ ok u
    → Chain 0 u.length u.file_segments
unfolding create_new_torrent
create_new_torrent-Chain codec file u h =
    let (t, read, h') = bind_ok (or_error (codec.unmarshal_torrent file)) _ u h in
    let (r, info, h'') = bind_ok (read_info codec file t) _ u h' in
    let hash = calculate_info_hash codec r.1 in
    built-Chain (record (r.0) { info_hash = hash.0; info_hash_hex = hash.1 }) u h''

new_announcer-made :
    (parse : Bytes → Option Url) (announce : Bytes) (announce_list : List Bytes) (url : Url)
    (urls : List Url)
    → parse first_tracker ≡ some url
    → parse_all parse announce_list ≡ some urls
    → new_announcer parse announce announce_list ≡ ok (set_tracker_strategy (literal url urls) url)
unfolding new_announcer
new_announcer-made parse announce announce_list url urls first listed =
    rw (new_announcer, first, listed) refl

-- The parts of a manager for a torrent whose announce list has these URLs.
pub record IsReady (u : Torrent) (urls : List Url) (m : TorrentManager) : Type 0 where
  pub id : m.id ≡ u.info_hash_hex
  pub torrent : m.torrent ≡ u
  pub info_hash : m.peer_manager.info_hash ≡ u.info_hash
  pub segments : Chain 0 u.length u.file_segments
  pub pieces : Tiles u.piece_length 0 0 u.length m.downloader.queue.pieces
  pub sequential : IsSequential m.downloader
  pub trackers : m.scrapper.tracker_urls ≡ urls
  pub state : m.desk.manager.my_state ≡ stopped

-- `NewTorrentManager` on a file that `CreateNewTorrent` makes a torrent of, with a positive piece
-- length and an announce list of URLs, and where the fixed tracker's URL can be parsed: it returns a
-- stopped manager under the torrent's info hash. The segments of the torrent's files and the pieces
-- of the downloader both lie from 0 to the torrent's length without a gap.
pub new_torrent_manager-IsReady :
    (codec : Codec) (parse : Bytes → Option Url) (file : Bytes) (u : Torrent) (url : Url)
    (urls : List Url)
    → create_new_torrent codec (some file) ≡ ok u
    → 0 < u.piece_length
    → parse first_tracker ≡ some url
    → parse_all parse u.announce_list ≡ some urls
    → (m : TorrentManager) × (new_torrent_manager codec parse (some file) ≡ ok m) × IsReady u urls m
unfolding new_torrent_manager fatal set_tracker_strategy cancel new_peer_manager new_manager
new_torrent_manager-IsReady codec parse file u url urls created some_size first listed =
    let (d, made, s, start, tiles) =
      new_torrent_downloader-IsSequential u.length u.piece_length some_size in
    let a = set_tracker_strategy (literal url urls) url in
    let opened = new_announcer-made parse u.announce u.announce_list url urls first listed in
    (
      assembled u a d,
      rw (created, made, opened) refl,
      record {
        id = refl;
        torrent = refl;
        info_hash = refl;
        segments = create_new_torrent-Chain codec file u created;
        pieces = tiles;
        sequential = s;
        trackers = refl;
        state = refl;
      },
    )
