-- ===== src/Utils/Names/Parts.antt =====
-- The parts of a file's name, and the id in the handshake.
use dawn_torrent.Base.{
  ℕ, suc, ◌-◌, ◌*◌, ◌%◌, ◌≡◌, refl, sym, ap, ◌∙◌, true, ◌&&◌, List, [], ◌∷◌, ◌++◌, Bytes, map, ok,
  Bool-cases, length-append, take-append_length, inl, inr, length, take, ◌==◌, if◌then◌else◌, arith,
  replicate,
}
use mathlib.Core.List.{append-nil}
use dawn_torrent.Torrent.{hex_encode}
use dawn_torrent.Wire.{new_handshake_msg, parse_handshake, bittorrent_identifier}
use dawn_torrent.Wire.HandShakes.{parse_handshake-new_handshake_msg}
use dawn_torrent.Utils.Names.{is_flat, ext, get_file_name, get_random_id}

-- What stands in front of the extension.
stem : Bytes → Bytes
stem [] = []
stem (c ∷ cs) = elim (ext cs) [
  | d ∷ ds ↦ c ∷ stem cs
  | [] ↦ if (c == b'.') && is_flat cs then [] else c ∷ cs
]

stem-ext : (path : Bytes) → stem path ++ ext path ≡ path
unfolding ext stem
stem-ext [] = refl
stem-ext (c ∷ cs) = after (ext cs) (stem-ext cs)
  where
    after :
        (e : Bytes)
        → stem cs ++ e ≡ cs
        → (elim e as (λ _. Bytes) [
          | d ∷ ds ↦ c ∷ stem cs
          | [] ↦ if (c == b'.') && is_flat cs then [] else c ∷ cs
        ])
            ++ (elim e as (λ _. Bytes) [
              | d ∷ ds ↦ d ∷ ds
              | [] ↦ if (c == b'.') && is_flat cs then c ∷ cs else []
            ])
          ≡ c ∷ cs
    after (d ∷ ds) whole = ap (λ l. c ∷ l) whole
    after [] whole = elim (Bool-cases ((c == b'.') && is_flat cs)) [
      | inl dot ↦ rw dot refl
      | inr plain ↦ rw plain (append-nil (c ∷ cs))
    ]

ext-is_flat : (path : Bytes) → is_flat (ext path) ≡ true
unfolding ext is_flat
ext-is_flat [] = refl
ext-is_flat (c ∷ cs) = after (ext cs) (ext-is_flat cs)
  where
    after :
        (e : Bytes)
        → is_flat e ≡ true
        → is_flat (elim e as (λ _. Bytes) [
          | d ∷ ds ↦ d ∷ ds
          | [] ↦ if (c == b'.') && is_flat cs then c ∷ cs else []
        ])
          ≡ true
    after (d ∷ ds) flat = flat
    after [] flat = ground arith

-- A file name and its extension make up the path, and there is no slash in the extension.
pub get_file_name-ext :
    (path : Bytes) → (get_file_name path ++ ext path ≡ path) × (is_flat (ext path) ≡ true)
unfolding get_file_name
get_file_name-ext path =
    let whole = stem-ext path in
    let long : length path - length (ext path) ≡ length (stem path) =
      omega (arith, length-append (stem path) (ext path), ap length whole) in
    let front : get_file_name path ≡ stem path =
      ap (λ n. take n path) long
      ∙ ap (take (length (stem path))) (sym whole)
      ∙ take-append_length (stem path) (ext path) in
    (ap (λ l. l ++ ext path) front ∙ whole, ext-is_flat path)

length-hex_encode : (bs : Bytes) → length (hex_encode bs) ≡ 2 * length bs
unfolding hex_encode
length-hex_encode [] = refl
length-hex_encode (b ∷ bs) = omega (arith, length-hex_encode bs)

length-map : (f : ℕ → ℕ) (xs : List ℕ) → length (map f xs) ≡ length xs
length-map f [] = refl
length-map f (x ∷ xs) = ap suc (length-map f xs)

-- Where `Perm` gives as many numbers as it is asked for, the client's id of twenty characters fits the
-- handshake: what the other side parses is the info hash and this id.
pub new_handshake_msg-get_random_id :
    (perm : ℕ → List ℕ) (hash : Bytes)
    → ((n : ℕ) → length (perm n) ≡ n)
    → length hash ≡ 20
    → parse_handshake (new_handshake_msg hash (get_random_id perm 20))
      ≡ ok (record {
        pstrlen = 19 ∷ [];
        pstr = bittorrent_identifier;
        info_hash = hash;
        reserved_bytes = replicate 8 0;
        peer_id = get_random_id perm 20;
      })
unfolding get_random_id
new_handshake_msg-get_random_id perm hash sized whole =
    let bytes = map (λ n. n % 256) (perm 10) in
    let size : length (hex_encode bytes) ≡ 20 =
      omega (arith, length-hex_encode bytes, length-map (λ n. n % 256) (perm 10), sized 10) in
    parse_handshake-new_handshake_msg hash (get_random_id perm 20) whole size
