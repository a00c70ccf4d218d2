-- ===== src/Tests/Uploads.antt =====
-- The archive and the upload at concrete inputs, with a compression that stores its input behind
-- one byte.
use ri_mms_linux.Prelude.{
  ℕ, ◌≡◌, refl, arith, Bool, true, false, inl, List, [], ◌∷◌, ◌++◌, Option, none, some, length,
  replicate, ◌==◌, if◌then◌else◌,
}
use ri_mms_linux.Prelude.Int.{pos, ◌-ℤ◌}
use ri_mms_linux.Log.Laws.{stored}
use ri_mms_linux.Log.Entries.{concat}
use ri_mms_linux.Log.Tags.{tag_download_started, tag_sampling_started}
use ri_mms_linux.Archive.{Libs, created, create_file_to_upload}
use ri_mms_linux.Archive.Format.{read_archive}
use ri_mms_linux.Archive.Create.{
  IsPrepared, Kept, create_file_to_upload-read_archive, create_file_to_upload-Kept,
}
use ri_mms_linux.Modem.{Status, get_modem_status}
use ri_mms_linux.Upload.{Uploader, Call, returns_zero, gest_ftp}
use ri_mms_linux.Upload.Samples.{event, closing, gest_ftp-stored}
use ri_mms_linux.Upload.Timer.{IsStuck, Ends, gest_ftp-IsStuck}
use ri_mms_linux.Tests.Fixtures.{files, calendar, modem}

abbrev inflate : List ℕ → Option (List ℕ)
inflate [] = none
inflate (x ∷ xs) = some xs

abbrev libs : Libs
libs = record { compress = λ bytes. some (120 ∷ bytes); calloc = λ n. true }

prepared : IsPrepared libs files (72 ∷ []) (2 ∷ []) (120 ∷ 72 ∷ []) (120 ∷ 2 ∷ [])
prepared = record {
  has_header = refl;
  has_sample = refl;
  some_header = omega arith;
  some_sample = omega arith;
  packs_header = refl;
  packs_sample = refl;
  room = λ n. refl;
  can_write = refl;
  whole_writes = λ bytes. refl;
}

create_file_to_upload-read_archive_example :
    (bytes : List ℕ) × (create_file_to_upload libs files
      ≡ created (record files { upload = some bytes }))
    × (read_archive inflate bytes ≡ some (72 ∷ [], 2 ∷ []))
create_file_to_upload-read_archive_example =
    create_file_to_upload-read_archive libs files (72 ∷ []) (2 ∷ []) (120 ∷ 72 ∷ []) (120 ∷ 2 ∷ [])
      inflate prepared (omega arith) refl refl (omega arith) (omega arith) (omega arith)
      (omega arith)

create_file_to_upload-Kept_example : Kept files (create_file_to_upload libs files)
create_file_to_upload-Kept_example = create_file_to_upload-Kept libs files

-- A compression of 64 KB of zeros to two bytes, and its inverse.
abbrev inflate_zeros : List ℕ → Option (List ℕ)
inflate_zeros [] = none
inflate_zeros (x ∷ xs) = if length xs == 1 then some (replicate 65536 0) else some xs

abbrev unit : Uploader
unit = record {
  files = files;
  modem = record modem { status = Status.online };
  lasttransferperiod = pos 0;
  transferperiod = pos 3600;
  shown = [];
}

abbrev call : Call
call = record {
  now = pos 4000;
  time = pos 1308141296;
  calendar = calendar;
  during = tag_sampling_started ∷ [];
}

abbrev ftp_down : List ℕ → Bool
ftp_down bytes = false

gest_ftp-stored_example :
    (buffer : List ℕ) × (u' : Uploader) × (read_archive inflate buffer ≡ some (72 ∷ [], 2 ∷ []))
    × (gest_ftp libs ftp_down call unit ≡ returns_zero u')
    × (u'.files.ftp_uploading ≡ false)
    × (stored u'.files
        ≡ (if ftp_down buffer then [] else 2 ∷ [])
          ++ ([]
              ++ (event call tag_download_started
                  ++ (concat call.during ++ closing call (ftp_down buffer)))))
unfolding get_modem_status ◌-ℤ◌
gest_ftp-stored_example =
    gest_ftp-stored libs ftp_down call unit (2 ∷ []) (72 ∷ []) (120 ∷ 72 ∷ []) (120 ∷ 2 ∷ []) none
      none inflate refl refl refl prepared (omega arith) refl refl (omega arith) (omega arith)
      (omega arith) (omega arith)

abbrev stuck_unit : Uploader
stuck_unit = record unit { files = record files { sample = none; ftp_uploading = true } }

gest_ftp-IsStuck_example : Ends (λ u. IsStuck u.files) (gest_ftp libs ftp_down call stuck_unit)
gest_ftp-IsStuck_example =
    gest_ftp-IsStuck libs ftp_down call stuck_unit (record { missing = inl refl; diverted = refl })
