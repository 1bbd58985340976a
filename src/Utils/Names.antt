-- ===== src/Utils/Names.antt =====
-- utils/utils.go: the names of saved files, their directories, and the client's own id. The home
-- directories and the random permutation are parameters.
pub mod Parts
use dawn_torrent.Base.{
  ℕ, ◌-◌, ◌/◌, ◌%◌, Bool, true, false, ◌&&◌, not, List, [], ◌∷◌, ◌++◌, Bytes, Option, none, some,
  map, length, take, ◌==◌, if◌then◌else◌,
}
use dawn_torrent.Torrent.{hex_encode}

-- No slash.
pub is_flat : Bytes → Bool
is_flat [] = true
is_flat (c ∷ cs) = let later = is_flat cs in not (c == b'/') && later

-- `filepath.Ext`: from the last dot on, if no slash follows it.
unfoldable pub ext : Bytes → Bytes
unfolding is_flat
ext [] = []
ext (c ∷ cs) = elim (ext cs) [
  | d ∷ ds ↦ d ∷ ds
  | [] ↦ if (c == b'.') && is_flat cs then c ∷ cs else []
]

unfoldable pub get_file_name : Bytes → Bytes
unfolding ext
get_file_name path = take (length path - length (ext path)) path

-- The path types.
pub data PathType : Type 0 where
  piece_hash_path torrent_data_path downloaded_file ipc other : PathType

pub record Dirs : Type 0 where
  pub torrent_home_dir : Bytes
  pub saved_torrent_dir : Bytes

abbrev below : Bytes → Bytes → Bytes
below dir name = dir ++ (b'/' ∷ name)

-- `GetPath`: the directory that is made where it does not exist, and the path.
unfoldable pub get_saved_path : Dirs → PathType → Bytes → Bytes → Option Bytes × Bytes
get_saved_path d piece_hash_path path file_name =
    let root = below d.saved_torrent_dir path in (some root, below root file_name)
get_saved_path d torrent_data_path path file_name =
    let root = below d.saved_torrent_dir path in (some root, below root file_name)
get_saved_path d downloaded_file path file_name =
    let root = below d.torrent_home_dir path in (some root, below root file_name)
get_saved_path d ipc path file_name = let root = below d.torrent_home_dir path in (some root, root)
get_saved_path d other path file_name = (none, [])

-- `GetRandomId` on the permutations that `Perm` gives.
unfoldable pub get_random_id : (ℕ → List ℕ) → ℕ → Bytes
unfolding hex_encode
get_random_id perm s = hex_encode (map (λ n. n % 256) (perm (s / 2)))
