-- ===== src/Archive.antt =====
-- The file that is uploaded, sw/rimms.c: `Flip`, `CRC32FromStream` and `CreateFileToUpload`.
-- zlib's `compress` and the success of `calloc` are parameters, the record `Libs`.
pub mod Crc
pub mod Create
pub mod Flipping
pub mod Format
use ri_mms_linux.Prelude.{
  ℕ, ◌+◌, ◌*◌, ◌<◌, Bool, true, false, List, [], ◌∷◌, ◌++◌, Option, none, some,
}
use ri_mms_linux.Prelude.{length, ltb, leb, ◌==◌, if◌then◌else◌}
use ri_mms_linux.Prelude.Words.{byte}
use ri_mms_linux.Log.{Files, remove_file_to_upload, write_to_upload}
use ri_mms_linux.Archive.Crc.{crc32_from_stream}

pub record Libs : Type 0 where
  -- `none` is a result other than Z_OK, with the 10 MB of room that the code gives
  pub compress : List ℕ → Option (List ℕ)
  -- whether `calloc` gives that many bytes
  pub calloc : ℕ → Bool

-- `LoadFile`: `none` is a null pointer.
unfoldable pub load_file : Libs → Option (List ℕ) → Option (List ℕ)
load_file libs none = none
load_file libs (some bytes) = if libs.calloc (length bytes) then some bytes else none

-- A length in two bytes, the higher first: its upper half is not stored.
abbrev pub length_bytes : ℕ → List ℕ
length_bytes n = byte n 1 ∷ byte n 0 ∷ []

-- What the CRC covers: five fixed bytes, and for each part its compressed length, its length and the
-- compressed bytes, then four zeros.
abbrev pub archive_body : List ℕ → List ℕ → ℕ → ℕ → List ℕ
archive_body compheader compdata sizeheader sizedata =
    (0x00 ∷ 0x00 ∷ 0x04 ∷ 0x00 ∷ 0x01 ∷ [])
    ++ (length_bytes (length compheader)
        ++ (length_bytes sizeheader
            ++ (compheader
                ++ (length_bytes (length compdata)
                    ++ (length_bytes sizedata ++ (compdata ++ (0 ∷ 0 ∷ 0 ∷ 0 ∷ [])))))))

unfoldable pub archive : List ℕ → List ℕ → ℕ → ℕ → List ℕ
archive compheader compdata sizeheader sizedata =
    let body = archive_body compheader compdata sizeheader sizedata in
    let crc = crc32_from_stream body in
    body ++ (byte crc 3 ∷ byte crc 2 ∷ byte crc 1 ∷ byte crc 0 ∷ [])

-- How `CreateFileToUpload` ends: with 0, with -1, or with writes past the end of `filecompress`,
-- which C leaves undefined.
pub data Created : Type 0 where
  created : Files → Created
  failed : Files → Created
  overrun : Created

-- From the compressed parts on: `filecompress` has the two plain sizes and 25 bytes.
unfoldable pub write_archive : Libs → List ℕ → List ℕ → ℕ → ℕ → Files → Created
write_archive libs compheader compdata sizeheader sizedata f =
    let room = sizeheader + sizedata + 25 in
    let wanted = 21 + length compheader + length compdata in
    if libs.calloc room
    then (if leb wanted room
        then (let (g, done) = write_to_upload (archive compheader compdata sizeheader sizedata) f in
            if done then created g else failed g)
        else overrun)
    else failed f

abbrev pub compress_room : ℕ
compress_room = 1024 * 10000

-- The two calls of `compress`, each with its memory.
unfoldable pub compress_parts : Libs → List ℕ → List ℕ → Files → Created
compress_parts libs header sample f =
    if libs.calloc compress_room
    then (elim (libs.compress header) [
      | none ↦ failed f
      | some compheader ↦ elim (libs.compress sample) [
        | none ↦ failed f
        | some compdata ↦ write_archive libs compheader compdata (length header) (length sample) f
      ]
    ])
    else failed f

-- `data && (sizedata.Val>0)`, and the same of the header.
unfoldable pub load_then : Libs → Option (List ℕ) → Files → (List ℕ → Created) → Created
load_then libs file f next = elim (load_file libs file) [
  | none ↦ failed f
  | some bytes ↦ if length bytes == 0 then failed f else next bytes
]

unfoldable pub create_file_to_upload : Libs → Files → Created
create_file_to_upload libs f =
    let g = remove_file_to_upload f in
    load_then libs g.sample g
      λ sample. load_then libs g.header g λ header. compress_parts libs header sample g
