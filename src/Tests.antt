-- ===== src/Tests.antt =====
-- Runs of the components at concrete inputs, and their theorems applied to these inputs.
pub mod Codec
pub mod Pieces
pub mod Writing
pub mod Announces
pub mod Managing
pub mod Swarming
pub mod Downloading
pub mod Working
pub mod Saving
pub mod Assembling
pub mod Bencoding
pub mod Requesting
pub mod TorrentFiles
pub mod Hashing
