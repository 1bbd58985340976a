-- ===== src/Bencode/Field/Elements.antt =====
-- parser/bencode_parser.go: what a round of `getField` makes of each well-formed element.
use dawn_torrent.Base.{
  ℕ, zero, suc, ◌+◌, ◌^◌, ◌<◌, ◌≤◌, ◌≡◌, ◌⊎◌, refl, ap, ◌∙◌, sym, subst, true, false, List, [], ◌∷◌,
  ◌++◌, Bytes, some, length, length-append, length-drop, drop, get_elem?, get_elem?-drop,
  take-append_length, drop-append_length, leb, ◌==◌, All, ◌||◌, arith,
}
use mathlib.Core.List.{append_assoc}
use dawn_torrent.Base.Decimal.{format_uint, format_uint-digits, is_digit}
use dawn_torrent.Bencode.Parsing.{returned}
use dawn_torrent.Bencode.{sized}
use dawn_torrent.Bencode.Field.{Scan, Fields, scan, stops, collect, length_of, read_one}
use dawn_torrent.Bencode.Field.Scanning.{
  scan_length, scan_number, scan_stop, length_of-format_uint, digit_tests,
}

drop_none : (n : ℕ) → drop {A = ℕ} n [] ≡ []
drop_none zero = refl
drop_none (suc n) = refl

drop-add : (n m : ℕ) (xs : Bytes) → drop (n + m) xs ≡ drop m (drop n xs)
drop-add zero m xs = ap (λ k. drop k xs) (omega arith)
drop-add (suc n) zero [] = drop_none (suc n + 0)
drop-add (suc n) (suc m) [] = drop_none (suc n + suc m)
drop-add (suc n) m (x ∷ xs) =
    ap (λ k. drop k (x ∷ xs)) {x = suc n + m} {y = suc (n + m)} (omega arith) ∙ drop-add n m xs

-- Behind what stands at a position stands the rest.
pub behind :
    (file : Bytes) (p q : ℕ) (xs ys : Bytes)
    → drop p file ≡ xs ++ ys
    → q ≡ p + length xs
    → drop q file ≡ ys
behind file p q xs ys h e =
    ap (λ k. drop k file) e
    ∙ drop-add p (length xs) file
    ∙ ap (drop (length xs)) h
    ∙ drop-append_length xs ys

pub char_at :
    (file : Bytes) (p c : ℕ) (rest : Bytes) → drop p file ≡ c ∷ rest → get_elem? file p ≡ some c
char_at file p c rest h =
    ap (get_elem? file) {x = p} {y = p + 0} (omega arith)
    ∙ sym (get_elem?-drop p file 0)
    ∙ ap (λ l. get_elem? l 0) h

pub at_length :
    (file : Bytes) (p : ℕ) (xs ys : Bytes)
    → drop p file ≡ xs ++ ys
    → 0 < length xs
    → p + length xs + length ys ≡ length file
at_length file p xs ys h some_byte =
    omega (arith, length-append xs ys, length-drop p file, ap length h)

pub length-sized : (s : Bytes) → length (sized s) ≡ length (format_uint (length s)) + 1 + length s
length-sized s = omega (arith, length-append (format_uint (length s)) (b':' ∷ s))

-- One round is the inner loop and what is made of its end.
read_one-scan :
    (file : Bytes) (f : Fields) (c : ℕ) (ahead : Bytes) (s : Scan)
    → drop f.position file ≡ c ∷ ahead
    → scan ahead c f.position [] [] false (c == b'e') ≡ returned s
    → read_one file f ≡ collect file f s
unfolding read_one
read_one-scan file f c ahead s h runs =
    rw
      (
        char_at file f.position c ahead h,
        behind file f.position (f.position + 1) (c ∷ []) ahead h refl,
        runs,
      )
      refl

collect-text :
    (file : Bytes) (f : Fields) (s : Scan) (text rest : Bytes)
    → s.ch ≡ b':'
    → length_of s.length_s ≡ some (length text)
    → s.position + 1 + length text ≤ length file
    → drop (s.position + 1) file ≡ text ++ rest
    → collect file f s
      ≡ returned (record {
        seq = f.seq ++ (text ∷ []);
        position = s.position + 1 + length text;
        field = f.field;
      })
unfolding collect
collect-text file f s text rest ch len fits h =
    rw (ch, len, inside, h, take-append_length text rest) refl
  where
    inside : leb (s.position + 1 + length text) (length file) ≡ true
    inside = ground (arith, fits)

module _ (file : Bytes) (bound : length file < 2 ^ 63) (seq : List Bytes) (p field : ℕ) where
  pub read_one_text :
      (s rest : Bytes)
      → drop p file ≡ sized s ++ rest
      → read_one file (record { seq = seq; position = p; field = field })
        ≡ returned
            (record { seq = seq ++ (s ∷ []); position = p + length (sized s); field = field })
  read_one_text s rest h =
      let size : p + length (sized s) + length rest ≡ length file =
        at_length file p (sized s) rest h (omega (arith, length-sized s)) in
      let short : length s < 2 ^ 63 = omega (arith, size, length-sized s) in
      let (c, ds, e, all, value) = format_uint-digits (length s) short in
      let digits_length = ap length e in
      let there : drop p file ≡ c ∷ (ds ++ (b':' ∷ (s ++ rest))) =
        h
        ∙ append_assoc (format_uint (length s)) (b':' ∷ s) rest
        ∙ ap (λ l. l ++ (b':' ∷ (s ++ rest))) e in
      let (found, runs, ch, at, digits) = scan_length ds c (s ++ rest) p [] [] all.0 all.1 in
      let (go, one_byte, no_number, no_end) = digit_tests c all.0 in
      let len : length_of found.length_s ≡ some (length s) =
        ap length_of (digits ∙ sym e) ∙ length_of-format_uint (length s) short in
      let text_at : drop (found.position + 1) file ≡ s ++ rest =
        behind file p (found.position + 1) (c ∷ (ds ++ (b':' ∷ []))) (s ++ rest)
          (there ∙ ap (◌∷◌ c) (sym (append_assoc ds (b':' ∷ []) (s ++ rest))))
          (omega (arith, at, length-append ds (b':' ∷ []))) in
      let f : Fields = record { seq = seq; position = p; field = field } in
      read_one-scan file f c (ds ++ (b':' ∷ (s ++ rest))) found there (rw no_end runs)
      ∙ collect-text file f found s rest ch len
          (omega (arith, at, size, digits_length, length-sized s)) text_at
      ∙ ap (λ q. returned (record { seq = seq ++ (s ∷ []); position = q; field = field }))
          {x = found.position + 1 + length s} {y = p + length (sized s)}
          (omega (arith, at, digits_length, length-sized s))

  pub read_one_number :
      (n : ℕ) (rest : Bytes)
      → n < 2 ^ 63
      → drop p file ≡ b'i' ∷ (format_uint n ++ (b'e' ∷ rest))
      → read_one file (record { seq = seq; position = p; field = field })
        ≡ returned (record {
          seq = seq ++ (format_uint n ∷ []);
          position = p + 2 + length (format_uint n);
          field = b'e';
        })
  unfolding collect
  read_one_number n rest small h =
      let (c, ds, e, all, value) = format_uint-digits n small in
      let (found, runs, ch, at, digits, is) =
        scan_number (format_uint n) b'i' rest p [] [] false refl refl
          (subst (All (λ d. is_digit d ≡ true)) (sym e) all) in
      let f : Fields = record { seq = seq; position = p; field = field } in
      read_one-scan file f b'i' (format_uint n ++ (b'e' ∷ rest)) found h runs
      ∙ rw (ch, is, digits)
          (ap
            (λ q.
              returned (record { seq = seq ++ (format_uint n ∷ []); position = q; field = b'e' }))
            (omega (arith, at)))

  pub read_one_end :
      (c : ℕ) (rest : Bytes)
      → (c ≡ b'd') ⊎ (c ≡ b'l') ⊎ (c ≡ b'e')
      → drop p file ≡ c ∷ rest
      → read_one file (record { seq = seq; position = p; field = field })
        ≡ returned (record { seq = seq; position = p; field = c })
  unfolding collect
  read_one_end c rest is h =
      let f : Fields = record { seq = seq; position = p; field = field } in
      let ends : (stops c (c == b'e') ≡ true)
          × ((c == b':') ≡ false)
          × ((c == b'd' || c == b'l' || c == b'e') ≡ true) =
        ground arith in
      read_one-scan file f c rest _ h (scan_stop rest c p [] [] false (c == b'e') ends.0)
      ∙ rw (ends.1, ends.2) refl
