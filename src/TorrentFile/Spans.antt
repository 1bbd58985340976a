-- ===== src/TorrentFile/Spans.antt =====
-- core/torrent.go: where the files lie in the torrent.
use dawn_torrent.Base.{
  ℕ, ◌+◌, ◌*◌, ◌%◌, ◌^◌, ◌<◌, ◌≡◌, refl, ap, ◌∙◌, sym, List, [], ◌∷◌, ◌++◌, Bytes, Option, none,
  some, length, length-append, get_elem?, arith,
}
use mathlib.Core.List.{append_assoc, append-nil}
use dawn_torrent.Bencode.Parsing.{returned}
use dawn_torrent.Bencode.{BMap, BList}
use dawn_torrent.TorrentFile.{
  FileMetadata, single_file, multiple_file, create_file_properties, file_of, metadata_loop, list_at,
  maps_in, files, build_file_metadata, string_at, length_key, int_of, name,
}

-- Files one behind the other from a start, each with its path and its length.
abbrev pub row : ℕ → List (Bytes × ℕ) → List FileMetadata
row start [] = []
row start ((p, l) ∷ rest) =
    record { path = p; length = l; file_index = 0; start_index = start; end_index = start + l }
    ∷ row (start + l) rest

abbrev pub sum : List (Bytes × ℕ) → ℕ
sum [] = 0
sum ((p, l) ∷ rest) = l + sum rest

-- The dictionaries have these paths and lengths.
abbrev pub Reads : List (Option BMap) → List (Bytes × ℕ) → Type 0
Reads [] [] = Unit {_}
Reads [] (x ∷ xs) = ⊥
Reads (v ∷ vs) [] = ⊥
Reads (v ∷ vs) (x ∷ xs) = (file_of v ≡ returned x) × Reads vs xs

-- The first file starts at 0, each other one at the end of the file before it.
abbrev StandsAt : List FileMetadata → ℕ → Type 0
StandsAt [] start = start ≡ 0
StandsAt (f ∷ []) start = f.end_index ≡ start
StandsAt (f ∷ g ∷ fs) start = StandsAt (g ∷ fs) start

last_ends :
    (f : FileMetadata) (fs : List FileMetadata) (start : ℕ)
    → StandsAt (f ∷ fs) start
    → (g : FileMetadata) × (get_elem? (f ∷ fs) (length fs) ≡ some g) × (g.end_index ≡ start)
last_ends f [] start h = (f, refl, h)
last_ends f (g ∷ fs) start h = last_ends g fs start h

StandsAt-append :
    (fs : List FileMetadata) (f : FileMetadata) → StandsAt (fs ++ (f ∷ [])) f.end_index
StandsAt-append [] f = refl
StandsAt-append (g ∷ []) f = refl
StandsAt-append (g ∷ h ∷ fs) f = StandsAt-append (h ∷ fs) f

create_file_properties-eq :
    (fs : List FileMetadata) (p : Bytes) (l start : ℕ)
    → StandsAt fs start
    → start + l < 2 ^ 63
    → create_file_properties fs p l (length fs)
      ≡ returned (record {
        path = p;
        length = l;
        file_index = 0;
        start_index = start;
        end_index = start + l;
      })
unfolding create_file_properties
create_file_properties-eq [] p l start at small =
    let same : (0 + l) % 2 ^ 64 ≡ start + l = omega (arith, at, small) in
    rw same (
      ap
        (λ b.
          returned (record {
            path = p;
            length = l;
            file_index = 0;
            start_index = b;
            end_index = start + l;
          }))
        (sym at))
create_file_properties-eq (f ∷ fs) p l start at small =
    let (g, found, ends) = last_ends f fs start at in
    let same : (start + l) % 2 ^ 64 ≡ start + l = omega (arith, small) in
    rw (found, ends, same) refl

metadata_loop_end :
    (i : ℕ) (fs : List FileMetadata) (total : ℕ)
    → metadata_loop [] i fs total ≡ returned (fs, total)
unfolding metadata_loop
metadata_loop_end i fs total = refl

metadata_loop_next :
    (v : Option BMap) (vs : List (Option BMap)) (p : Bytes) (l : ℕ) (fs : List FileMetadata)
    (total : ℕ) (new : FileMetadata)
    → file_of v ≡ returned (p, l)
    → create_file_properties fs p l (length fs) ≡ returned new
    → metadata_loop (v ∷ vs) (length fs) fs total
      ≡ metadata_loop vs (length fs + 1) (fs ++ (new ∷ [])) ((total + l) % 2 ^ 64)
unfolding metadata_loop
metadata_loop_next v vs p l fs total new read created = rw (metadata_loop, read, created) refl

metadata_loop-row :
    (vs : List (Option BMap)) (xs : List (Bytes × ℕ)) (properties : List FileMetadata)
    (start total : ℕ)
    → Reads vs xs
    → StandsAt properties start
    → start + sum xs < 2 ^ 63
    → total + sum xs < 2 ^ 63
    → metadata_loop vs (length properties) properties total
      ≡ returned (properties ++ row start xs, total + sum xs)
metadata_loop-row [] [] properties start total reads at small small' =
    let total_end : total ≡ total + 0 = omega arith in
    metadata_loop_end (length properties) properties total
    ∙ (λ k. returned (sym (append-nil properties) k, total_end k))
metadata_loop-row (v ∷ vs) [] properties start total reads at small small' = absurd reads
metadata_loop-row [] (x ∷ xs) properties start total reads at small small' = absurd reads
metadata_loop-row (v ∷ vs) ((p, l) ∷ xs) properties start total reads at small small' =
    let new : FileMetadata = record {
      path = p;
      length = l;
      file_index = 0;
      start_index = start;
      end_index = start + l;
    } in
    let added : (total + l) % 2 ^ 64 + sum xs ≡ total + (l + sum xs) = omega (arith, small') in
    let longer = properties ++ (new ∷ []) in
    metadata_loop_next v vs p l properties total new reads.0
      (create_file_properties-eq properties p l start at (omega (arith, small)))
    ∙ ap (λ n. metadata_loop vs n longer ((total + l) % 2 ^ 64))
        (omega (arith, length-append properties (new ∷ [])))
    ∙ metadata_loop-row vs xs longer (start + l) ((total + l) % 2 ^ 64) reads.1
        (StandsAt-append properties new) (omega (arith, small)) (omega (arith, small'))
    ∙ (λ k. returned (append_assoc properties (new ∷ []) (row (start + l) xs) k, added k))

-- For an info dictionary with a list of files whose lengths stay below 2 ^ 63 in sum, the files lie
-- one behind the other from 0 on, with the paths and the lengths of the list, and the length of the
-- torrent is what was read in front of it and the sum.
pub build_file_metadata_multiple :
    (m : BMap) (l : BList) (xs : List (Bytes × ℕ)) (total : ℕ)
    → list_at files m ≡ some l
    → Reads (maps_in l) xs
    → total + sum xs < 2 ^ 63
    → build_file_metadata m total ≡ returned (multiple_file, row 0 xs, total + sum xs)
unfolding build_file_metadata
build_file_metadata_multiple m l xs total listed reads small =
    rw
      (
        build_file_metadata,
        listed,
        metadata_loop-row (maps_in l) xs [] 0 total reads refl (omega (arith, small)) small,
      )
      refl

-- For an info dictionary without a list of files the one file has the name and the length that the
-- dictionary gives, and the torrent is taken to be twice as long.
pub build_file_metadata_single :
    (m : BMap)
    → list_at files m ≡ none
    → int_of (string_at length_key m) < 2 ^ 62
    → let n = int_of (string_at length_key m) in
      build_file_metadata m n ≡ returned (single_file, row 0 ((string_at name m, n) ∷ []), 2 * n)
unfolding build_file_metadata create_file_properties
build_file_metadata_single m unlisted small =
    let n = int_of (string_at length_key m) in
    let doubled : (n + n) % 2 ^ 64 ≡ 2 * n = omega (arith, small) in
    let start : (0 + n) % 2 ^ 64 ≡ 0 + n = omega (arith, small) in
    rw (build_file_metadata, unlisted, start, doubled) refl
