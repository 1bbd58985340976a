-- ===== src/Torrent/Segments.antt =====
-- The segments lie one behind the other and fill the torrent.
use dawn_torrent.Base.{
  ℕ, ◌+◌, ◌≡◌, refl, sym, ap, ◌∙◌, List, [], ◌∷◌, ◌++◌, map, Result, ok, some, length, get_elem?,
  length-append, arith,
}
use mathlib.Core.List.{append-nil, append_assoc, map-append}
use dawn_torrent.Torrent.{
  FileMode, single_mode, multiple_mode, File, FileSegment, Torrent, segment_of, start_of,
  files_loop, build_in, single_segment, build_file_segment,
}

-- From `a` to `b` without a gap; each segment is as long as its file.
abbrev pub Chain : ℕ → ℕ → List FileSegment → Type 0
Chain a b [] = a ≡ b
Chain a b (s ∷ ss) =
    (s.start_index ≡ a) × (s.end_index ≡ a + s.file.length) × Chain (a + s.file.length) b ss

Chain-append :
    (a b c : ℕ) (xs ys : List FileSegment) → Chain a b xs → Chain b c ys → Chain a c (xs ++ ys)
Chain-append a b c [] ys h k = ground (arith, h, k)
Chain-append a b c (x ∷ xs) ys (s, e, t) k = (s, e, Chain-append (a + x.file.length) b c xs ys t k)

abbrev pub files_of : List FileSegment → List File
files_of = map (λ s. s.file)

-- The files that a torrent names in its mode.
abbrev pub named_files : FileMode → Torrent → List File
named_files single_mode t =
    record { length = t.single_info.length; path = t.single_info.name ∷ [] } ∷ []
named_files multiple_mode t = t.multiple.files

pub record IsLaidOut (m : FileMode) (t u : Torrent) : Type 0 where
  pub chain : Chain 0 u.length u.file_segments
  pub files : files_of u.file_segments ≡ named_files m t

Chain-last :
    (a b : ℕ) (x : FileSegment) (xs : List FileSegment)
    → Chain a b (x ∷ xs)
    → (s : FileSegment) × (get_elem? (x ∷ xs) (length xs) ≡ some s) × (s.end_index ≡ b)
Chain-last a b x [] h = (x, refl, omega (arith, h))
Chain-last a b x (y ∷ ys) h = Chain-last (a + x.file.length) b y ys h.2

start_of_end : (xs : List FileSegment) (b : ℕ) → Chain 0 b xs → start_of (length xs) xs ≡ ok b
unfolding start_of
start_of_end [] b h = ap ok h
start_of_end (x ∷ xs) b h = let (s, at, end) = Chain-last 0 b x xs h in ground (arith, at, end)

record Built (t : Torrent) (files : List File) (out : Result Torrent) : Type 0 where
  torrent : Torrent
  returns : out ≡ ok torrent
  chain : Chain 0 torrent.length torrent.file_segments
  same_files : files_of torrent.file_segments ≡ files

files_loop-Built :
    (files : List File) (t : Torrent) (i total : ℕ) (segments : List FileSegment)
    → i ≡ length segments
    → Chain 0 total segments
    → Built t (files_of segments ++ files) (files_loop t i files segments total)
unfolding files_loop segment_of
files_loop-Built [] t i total segments at chain = record {
  torrent = record t { file_segments = segments; length = total };
  returns = refl;
  chain = chain;
  same_files = sym (append-nil (files_of segments));
}
files_loop-Built (file ∷ files) t i total segments at chain =
    let t' = record t { piece_length = t.multiple.piece_length; pieces = t.multiple.pieces } in
    let s = segment_of t total file in
    let more = segments ++ (s ∷ []) in
    let chain' =
      Chain-append 0 total (total + file.length) segments (s ∷ []) chain (refl, refl, refl) in
    let built =
      files_loop-Built files t' (i + 1) (total + file.length) more
        (omega (arith, at, length-append segments (s ∷ []))) chain' in
    let started : start_of i segments ≡ ok total =
      ap (λ k. start_of k segments) at ∙ start_of_end segments total chain in
    rw started (record {
      torrent = built.torrent;
      returns = built.returns;
      chain = built.chain;
      same_files = built.same_files ∙ simp (map-append, append_assoc);
    })

build_in-IsLaidOut :
    (m : FileMode) (t : Torrent) → (u : Torrent) × (build_in m t ≡ ok u) × IsLaidOut m t u
unfolding build_in
build_in-IsLaidOut single_mode t = (
  _,
  refl,
  unfold single_segment in record { chain = (refl, omega arith, omega arith); files = refl },
)
build_in-IsLaidOut multiple_mode t =
    let built = files_loop-Built t.multiple.files t 0 0 [] refl refl in
    (built.torrent, built.returns, record { chain = built.chain; files = built.same_files })

-- `buildFileSegment` never panics. The segments then lie one behind the other from 0 to the
-- torrent's length, each as long as its file, and they are those of the files that the torrent
-- names in its mode, in their order.
pub build_file_segment-IsLaidOut :
    (t : Torrent) → (u : Torrent) × (build_file_segment t ≡ ok u) × IsLaidOut t.file_mode t u
unfolding build_file_segment
build_file_segment-IsLaidOut t = build_in-IsLaidOut t.file_mode t
