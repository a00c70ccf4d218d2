-- ===== src/Log.antt =====
-- The files of sw/rimms.c that the unit keeps its samples in: SAMPLE_FILE on flash, SAMPLE_RAM on
-- the ram disk while an upload runs, HEADER_FILE, and DATA_FILE, the file to upload. A file is
-- `none` when it does not exist; `writable` is whether the files can be opened for writing and
-- removed; `fwrite` is how much of a record gets into a file, whose disk may be full.
pub mod Arrays
pub mod Tags
pub mod Stamp
pub mod Entries
pub mod Laws
pub mod Readable
use ri_mms_linux.Prelude.{
  ℕ, Bool, true, false, List, [], ◌∷◌, ◌++◌, Option, none, some, if◌then◌else◌,
}

pub record Files : Type 0 where
  pub sample : Option (List ℕ)
  pub sample_ram : Option (List ℕ)
  pub header : Option (List ℕ)
  pub upload : Option (List ℕ)
  pub writable : Bool
  pub fwrite : List ℕ → List ℕ
  pub ftp_uploading : Bool

-- The bytes of a file, none if it is missing.
abbrev pub content : Option (List ℕ) → List ℕ
content none = []
content (some bytes) = bytes

-- `fopen(…, "ab")` and `fwrite`: a missing file is created.
abbrev pub append_to : Option (List ℕ) → List ℕ → Option (List ℕ)
append_to file bytes = some (content file ++ bytes)

-- `WriteToFile`, which does not look at what `fwrite` returns; the flag is whether it returns 0.
unfoldable pub write_to_file : List ℕ → Files → Files × Bool
write_to_file bytes f =
    if f.writable
    then (if f.ftp_uploading
        then (record f { sample_ram = append_to f.sample_ram (f.fwrite bytes) }, true)
        else (record f { sample = append_to f.sample (f.fwrite bytes) }, true))
    else (f, false)

-- `WriteToFile2(DATA_FILE, …)`.
unfoldable pub write_to_upload : List ℕ → Files → Files × Bool
write_to_upload bytes f =
    if f.writable
    then (record f { upload = append_to f.upload (f.fwrite bytes) }, true)
    else (f, false)

-- `RemoveFileToUpload` and `RemoveFileSample`; no caller looks at their results.
unfoldable pub remove_file_to_upload : Files → Files
remove_file_to_upload f = if f.writable then record f { upload = none } else f

unfoldable pub remove_file_sample : Files → Files
remove_file_sample f = if f.writable then record f { sample = none } else f

-- `system("cat SAMPLE_RAM >> SAMPLE_FILE")`: the shell creates SAMPLE_FILE even if `cat` fails.
unfoldable pub append_ram : Files → Files
append_ram f =
    if f.writable then record f { sample = append_to f.sample (content f.sample_ram) } else f

-- `system("rm SAMPLE_RAM")`.
unfoldable pub remove_ram : Files → Files
remove_ram f = if f.writable then record f { sample_ram = none } else f
