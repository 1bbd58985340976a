-- ===== src/Writer/Files.antt =====
-- One write into a file of the disk.
use dawn_torrent.Base.{
  ℕ, zero, suc, ◌+◌, ◌-◌, ◌≤◌, ◌<◌, ◌≡◌, false, some, ◌&&◌, [], ◌∷◌, ◌++◌, Bytes, ok, length,
  get_elem?, replicate, length-append, length-replicate, get_elem?-splice, get_elem?-append_left,
  ltb, leb, if◌then◌else◌, equal_bytes, arith,
}
use dawn_torrent.Writer.{Disk, write_at, write_to_file}

-- The disk after a write that does not fail.
abbrev pub written : Bytes → Bytes → ℕ → Disk → Disk
written bytes path start disk = record disk {
  content =
      λ q. if equal_bytes q path then write_at (disk.content path) start bytes else disk.content q;
}

pub write_to_file-eq :
    (bytes path : Bytes) (start : ℕ) (disk : Disk)
    → disk.cannot_open path ≡ false
    → disk.cannot_write path ≡ false
    → write_to_file bytes path start disk ≡ ok (length bytes, written bytes path start disk)
unfolding write_to_file
write_to_file-eq bytes path start disk o w = rw (o, w)

get_elem?_below : (xs : Bytes) (j v : ℕ) → get_elem? xs j ≡ some v → j < length xs
get_elem?_below [] j v e = cc
get_elem?_below (x ∷ xs) zero v e = omega arith
get_elem?_below (x ∷ xs) (suc j) v e = omega (arith, get_elem?_below xs j v e)

-- What `WriteAt` leaves at an offset inside of what it wrote.
pub get_elem?-write_at_inside :
    (old : Bytes) (start : ℕ) (bytes : Bytes) (j : ℕ)
    → start ≤ j
    → j < start + length bytes
    → get_elem? (write_at old start bytes) j ≡ get_elem? bytes (j - start)
unfolding write_at
get_elem?-write_at_inside old start [] j lo hi = absurd (omega arith)
get_elem?-write_at_inside old start (b ∷ bs) j lo hi =
    let zeros : Bytes = replicate (start + length (b ∷ bs) - length old) 0 in
    ground (
      arith,
      get_elem?-splice (old ++ zeros) start (b ∷ bs) j,
      length-append old zeros,
      length-replicate {A = ℕ} (start + length (b ∷ bs) - length old) 0,
    )

-- Outside of it a byte that was there stays.
pub get_elem?-write_at_outside :
    (old : Bytes) (start : ℕ) (bytes : Bytes) (j v : ℕ)
    → (leb start j && ltb j (start + length bytes)) ≡ false
    → get_elem? old j ≡ some v
    → get_elem? (write_at old start bytes) j ≡ some v
unfolding write_at
get_elem?-write_at_outside old start [] j v out e = e
get_elem?-write_at_outside old start (b ∷ bs) j v out e =
    let zeros : Bytes = replicate (start + length (b ∷ bs) - length old) 0 in
    ground (
      arith,
      get_elem?-splice (old ++ zeros) start (b ∷ bs) j,
      get_elem?-append_left old zeros j (get_elem?_below old j v e),
      length-append old zeros,
      length-replicate {A = ℕ} (start + length (b ∷ bs) - length old) 0,
    )
