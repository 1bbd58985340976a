-- ===== src/Torrent.antt =====
-- core/torrent/Torrent.go: what a torrent file says, and the layout of its files in the torrent.
-- Lengths are taken from 0 on. The bencode library, SHA-1 and `filepath.Join` are parameters.
pub mod Segments
use dawn_torrent.Base.{
  ℕ, zero, suc, ◌+◌, ◌-◌, ◌*◌, ◌/◌, ◌%◌, ◌^◌, Bool, true, false, Option, none, some, List, [], ◌∷◌,
  ◌++◌, map, Bytes, Result, ok, err, panic, ◌>>=◌, io_failed, could_not_parse, or_panic, get_elem?,
  ltb, ◌==◌, if◌then◌else◌,
}
use dawn_torrent.Base.Int.{ℤ, pos, negsuc}

pub data FileMode : Type 0 where
  single_mode multiple_mode : FileMode

pub record File : Type 0 where
  pub length : ℕ
  pub path : List Bytes

pub record SingleInfo : Type 0 where
  pub piece_length : ℕ
  pub pieces : Bytes
  pub length : ℕ
  pub name : Bytes

pub record MultipleInfo : Type 0 where
  pub piece_length : ℕ
  pub pieces : Bytes
  pub name : Bytes
  pub files : List File

pub record FileSegment : Type 0 where
  pub file : File
  pub start_index : ℕ
  pub end_index : ℕ
  pub parent_name : Bytes
  pub mode : FileMode

-- rpc/torrent_state: `FilePath` and `TorrentInfo`, the fields that are filled in.
pub record FilePath : Type 0 where
  pub path : Bytes
  pub length : ℤ

pub record TorrentInfo : Type 0 where
  pub mode : FileMode
  pub torrent_length : ℤ
  pub infohash : Bytes
  pub paths : List FilePath

pub record Torrent : Type 0 where
  pub announce : Bytes
  pub announce_list : List Bytes
  pub comment : Bytes
  pub single_info : SingleInfo
  pub multiple : MultipleInfo
  pub info_hash_hex : Bytes
  pub info_hash : Bytes
  pub file_mode : FileMode
  pub file_segments : List FileSegment
  pub piece_length : ℕ
  pub length : ℕ
  pub pieces : Bytes
  pub serialized_state : Option TorrentInfo

-- `filepath.Join` of two elements.
module _ (join : Bytes → Bytes → Bytes) where
  join_all : Bytes → List Bytes → Bytes
  join_all acc [] = acc
  join_all acc (p ∷ ps) = join_all (join acc p) ps

  parent_path : FileMode → Bytes → Bytes
  parent_path single_mode parent = []
  parent_path multiple_mode parent = join [] parent

  unfoldable pub get_path : FileSegment → Bytes
  unfolding join_all parent_path
  get_path f = join_all (parent_path f.mode f.parent_name) f.file.path

segment_of : Torrent → ℕ → File → FileSegment
segment_of t start file = record {
  file = file;
  start_index = start;
  end_index = start + file.length;
  parent_name = t.multiple.name;
  mode = t.file_mode;
}

-- The start of the file at an index: 0, or the end of the segment before.
start_of : ℕ → List FileSegment → Result ℕ
start_of zero segments = ok 0
start_of (suc i) segments = or_panic (get_elem? segments i) >>= λ s. ok s.end_index

-- The loop over the files of a multiple-file torrent.
files_loop : Torrent → ℕ → List File → List FileSegment → ℕ → Result Torrent
unfolding segment_of start_of
files_loop t i [] segments total = ok (record t { file_segments = segments; length = total })
files_loop t i (file ∷ files) segments total = start_of i segments >>= λ start.
    files_loop (record t { piece_length = t.multiple.piece_length; pieces = t.multiple.pieces })
      (i + 1) files (segments ++ (segment_of t start file ∷ [])) (total + file.length)

single_segment : Torrent → FileSegment
single_segment t = record {
  file = record { length = t.single_info.length; path = t.single_info.name ∷ [] };
  start_index = 0;
  end_index = t.single_info.length;
  parent_name = t.single_info.name;
  mode = t.file_mode;
}

build_in : FileMode → Torrent → Result Torrent
unfolding files_loop single_segment
build_in multiple_mode t = files_loop t 0 t.multiple.files [] 0
build_in single_mode t = ok (record t {
  file_segments = single_segment t ∷ [];
  length = t.single_info.length;
  piece_length = t.single_info.piece_length;
  pieces = t.single_info.pieces;
})

unfoldable pub build_file_segment : Torrent → Result Torrent
unfolding build_in
build_file_segment t = build_in t.file_mode t

-- `int32(n)`: the low 32 bits, read as a two's complement.
unfoldable pub int32 : ℕ → ℤ
int32 n = let low = n % 2 ^ 32 in if ltb low (2 ^ 31) then pos low else negsuc (2 ^ 32 - low - 1)

-- `Serialize` stores the message that it builds, and returns the stored one from then on.
unfoldable pub serialize : (Bytes → Bytes → Bytes) → Torrent → TorrentInfo × Torrent
unfolding int32
serialize join t = elim t.serialized_state [
  | some info ↦ (info, t)
  | none ↦
      let info : TorrentInfo = record {
        mode = t.file_mode;
        torrent_length = int32 t.length;
        infohash = t.info_hash_hex;
        paths =
            map (λ s. record { path = get_path join s; length = int32 s.file.length })
              t.file_segments;
      } in
      (info, record t { serialized_state = some info })
]

-- `encoding/hex`: two lower-case digits for a byte.
abbrev hex_digit : ℕ → ℕ
hex_digit d = if ltb d 10 then 48 + d else 87 + d

unfoldable pub hex_encode : Bytes → Bytes
hex_encode [] = []
hex_encode (b ∷ bs) = hex_digit (b / 16) ∷ hex_digit (b % 16) ∷ hex_encode bs

-- What the program takes from github.com/jackpal/bencode-go and from `crypto/sha1`; `none` is an
-- error value. A torrent is unmarshalled into fields that are otherwise zero.
pub record Codec : Type 0 where
  pub unmarshal_torrent : Bytes → Option Torrent
  pub unmarshal_single : Bytes → Option SingleInfo
  pub unmarshal_multiple : Bytes → Option MultipleInfo
  pub marshal_single : SingleInfo → Option Bytes
  pub marshal_multiple : MultipleInfo → Option Bytes
  pub sha1 : Bytes → Bytes

abbrev pub or_error {ℓ} : {A : Type ℓ} → Option A → Result A
or_error none = err could_not_parse
or_error (some a) = ok a

module _ (c : Codec) where
  open c use {
    unmarshal_torrent, unmarshal_single, unmarshal_multiple, marshal_single, marshal_multiple, sha1,
  }

  -- The hash as a string, and in hexadecimal.
  unfoldable pub calculate_info_hash : Bytes → Bytes × Bytes
  unfolding hex_encode
  calculate_info_hash info = (sha1 info, hex_encode (sha1 info))

  -- The torrent with its mode, and the bytes of its info dictionary. In the multiple mode the info
  -- is stored also where it cannot be marshalled: the error is tested afterwards.
  unfoldable pub read_info : Bytes → Torrent → Result (Torrent × Bytes)
  read_info file t = elim (t.single_info.length == 0) [
    | false ↦ do
      info ← or_error (unmarshal_single file)
      encoded ← or_error (marshal_single info)
      ok (record t { file_mode = single_mode }, encoded)
    | true ↦ do
      info ← or_error (unmarshal_multiple file)
      encoded ← or_error (marshal_multiple info)
      ok (record t { file_mode = multiple_mode; multiple = info }, encoded)
  ]

  -- `none` is a file that cannot be read.
  unfoldable pub create_new_torrent : Option Bytes → Result Torrent
  unfolding read_info calculate_info_hash build_file_segment
  create_new_torrent none = err io_failed
  create_new_torrent (some file) = do
    t ← or_error (unmarshal_torrent file)
    (t', info) ← read_info file t
    let (hash, hex) = calculate_info_hash info
    build_file_segment (record t' { info_hash = hash; info_hash_hex = hex })
