-- ===== src/Archive/Format.antt =====
-- A reader of the file that `CreateFileToUpload` writes, as the server has to be: five fixed bytes,
-- the two parts, four zeros and the CRC. `inflate` is zlib's inverse of `compress`.
use ri_mms_linux.Prelude.{ℕ, ◌+◌, ◌-◌, ◌*◌, ◌<◌, ◌≤◌, ◌≡◌, refl, ap, ◌∙◌, arith}
use ri_mms_linux.Prelude.{Bool, true, false, ◌&&◌, List, [], ◌∷◌, ◌++◌, Option, none, some}
use ri_mms_linux.Prelude.{
  length, take, drop, ◌==◌, ==_self, ==_of_ne, if◌then◌else◌, take-append, drop-append,
  length-append,
}
use ri_mms_linux.Prelude.Words.{byte}
use ri_mms_linux.Archive.{length_bytes, archive_body, archive}
use ri_mms_linux.Archive.Crc.{crc32_from_stream}

-- One part: its compressed length, its length, the compressed bytes.
abbrev pub read_part : (List ℕ → Option (List ℕ)) → List ℕ → Option (List ℕ × List ℕ)
read_part inflate (a ∷ b ∷ c ∷ d ∷ rest) = elim (inflate (take (a * 256 + b) rest)) [
  | none ↦ none
  | some plain ↦ if length plain == c * 256 + d then some (plain, drop (a * 256 + b) rest) else none
]
read_part inflate _ = none

abbrev pub same_bytes : List ℕ → List ℕ → Bool
same_bytes [] [] = true
same_bytes (x ∷ xs) (y ∷ ys) = x == y && same_bytes xs ys
same_bytes _ _ = false

-- What follows the parts: four zeros, and the CRC of all that is before it.
abbrev pub ending : List ℕ → List ℕ
ending body =
    let crc = crc32_from_stream body in byte crc 3 ∷ byte crc 2 ∷ byte crc 1 ∷ byte crc 0 ∷ []

unfoldable pub read_archive : (List ℕ → Option (List ℕ)) → List ℕ → Option (List ℕ × List ℕ)
read_archive inflate bytes =
    let body = take (length bytes - 4) bytes in
    if same_bytes (take 5 bytes) (0x00 ∷ 0x00 ∷ 0x04 ∷ 0x00 ∷ 0x01 ∷ [])
      && same_bytes (drop (length bytes - 4) bytes) (ending body)
    then (elim (read_part inflate (drop 5 body)) [
      | none ↦ none
      | some (header, rest) ↦ elim (read_part inflate rest) [
        | none ↦ none
        | some (sample, zeros) ↦
            if same_bytes zeros (0 ∷ 0 ∷ 0 ∷ 0 ∷ []) then some (header, sample) else none
      ]
    ])
    else none

same_bytes_self : (xs : List ℕ) → same_bytes xs xs ≡ true
same_bytes_self [] = refl
same_bytes_self (x ∷ xs) = rw (==_self x) (same_bytes_self xs)

module _ (inflate : List ℕ → Option (List ℕ)) where
  read_part_lem :
      (plain comp rest : List ℕ)
      → inflate comp ≡ some plain
      → length plain < 65536
      → length comp < 65536
      → read_part inflate
          (length_bytes (length comp) ++ (length_bytes (length plain) ++ (comp ++ rest)))
        ≡ some (plain, rest)
  read_part_lem plain comp rest back fits_plain fits_comp = rw clen (
      rw (take-append comp rest) (
        rw back
          (rw plen (rw (==_self (length plain)) (rw clen (rw (drop-append comp rest) refl))))))
    where
      clen : byte (length comp) 1 * 256 + byte (length comp) 0 ≡ length comp
      clen = omega arith

      plen : byte (length plain) 1 * 256 + byte (length plain) 0 ≡ length plain
      plen = omega arith

  -- A length of 64 KB or more does not survive its two bytes.
  read_part_long :
      (plain comp rest : List ℕ)
      → inflate comp ≡ some plain
      → 65536 ≤ length plain
      → length comp < 65536
      → read_part inflate
          (length_bytes (length comp) ++ (length_bytes (length plain) ++ (comp ++ rest)))
        ≡ none
  read_part_long plain comp rest back long fits_comp =
      rw clen (rw (take-append comp rest) (rw back (rw differ refl)))
    where
      clen : byte (length comp) 1 * 256 + byte (length comp) 0 ≡ length comp
      clen = omega arith

      differ : (length plain == byte (length plain) 1 * 256 + byte (length plain) 0) ≡ false
      differ = ==_of_ne _ _ (omega arith)

  module _ (header sample compheader compdata : List ℕ) where
    abbrev body : List ℕ
    body = archive_body compheader compdata (length header) (length sample)

    abbrev zeros : List ℕ
    zeros = 0 ∷ 0 ∷ 0 ∷ 0 ∷ []

    abbrev second_part : List ℕ
    second_part =
        length_bytes (length compdata) ++ (length_bytes (length sample) ++ (compdata ++ zeros))

    size : length (body ++ ending body) - 4 ≡ length body
    size = omega (arith, length-append body (ending body))

    cut : take (length (body ++ ending body) - 4) (body ++ ending body) ≡ body
    cut = ap (λ n. take n (body ++ ending body)) size ∙ take-append body (ending body)

    cut_end : drop (length (body ++ ending body) - 4) (body ++ ending body) ≡ ending body
    cut_end = ap (λ n. drop n (body ++ ending body)) size ∙ drop-append body (ending body)

  -- What the code lays out, the reader takes apart.
  pub read-archive :
      (header sample compheader compdata : List ℕ)
      → inflate compheader ≡ some header
      → inflate compdata ≡ some sample
      → length header < 65536
      → length sample < 65536
      → length compheader < 65536
      → length compdata < 65536
      → read_archive inflate (archive compheader compdata (length header) (length sample))
        ≡ some (header, sample)
  unfolding read_archive archive
  read-archive h s ch cd bh bs fh fs fch fcd = rw (cut h s ch cd) (
      rw (cut_end h s ch cd)
        (rw (same_bytes_self (ending (body h s ch cd))) (rw first (rw second refl))))
    where
      first : read_part inflate (drop 5 (body h s ch cd)) ≡ some (h, second_part h s ch cd)
      first = read_part_lem h ch (second_part h s ch cd) bh fh fch

      second : read_part inflate (second_part h s ch cd) ≡ some (s, zeros h s ch cd)
      second = read_part_lem s cd (zeros h s ch cd) bs fs fcd

  -- An archive of 64 KB of samples or more is refused: the length it states is wrong.
  read-archive_long :
      (header sample compheader compdata : List ℕ)
      → inflate compheader ≡ some header
      → inflate compdata ≡ some sample
      → length header < 65536
      → 65536 ≤ length sample
      → length compheader < 65536
      → length compdata < 65536
      → read_archive inflate (archive compheader compdata (length header) (length sample)) ≡ none
  unfolding read_archive archive
  read-archive_long h s ch cd bh bs fh long fch fcd = rw (cut h s ch cd) (
      rw (cut_end h s ch cd)
        (rw (same_bytes_self (ending (body h s ch cd))) (rw first (rw second refl))))
    where
      first : read_part inflate (drop 5 (body h s ch cd)) ≡ some (h, second_part h s ch cd)
      first = read_part_lem h ch (second_part h s ch cd) bh fh fch

      second : read_part inflate (second_part h s ch cd) ≡ none
      second = read_part_long s cd (zeros h s ch cd) bs long fcd
