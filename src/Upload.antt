-- ===== src/Upload.antt =====
-- `InitRiMMS`, `ForceUpload` and `GestFtp` of sw/rimms.c: the upload of the samples.
-- The FTP client is a parameter, a function from the bytes sent to whether it returns 0. While it
-- runs, the radio's thread may log records: they are the argument `during`.
pub mod Samples
pub mod Timer
pub mod Logged
use ri_mms_linux.Prelude.{
  ℕ, Bool, true, false, List, [], ◌∷◌, ◌++◌, Option, none, some, not, length, ◌==◌, if◌then◌else◌,
}
use ri_mms_linux.Prelude.Int.{ℤ, pos, ◌+ℤ◌, ◌-ℤ◌, leb_ℤ}
use ri_mms_linux.Log.{Files, remove_file_to_upload, remove_file_sample, append_ram, remove_ram}
use ri_mms_linux.Log.Stamp.{Calendar, tag_sor}
use ri_mms_linux.Log.Tags.{
  log, tag_download_started, tag_download_completed, tag_download_failed, tag_storage_cleared,
}
use ri_mms_linux.Modem.{Modem, get_modem_status, set_modem_status}
use ri_mms_linux.Archive.{Libs, load_file, Created, created, failed, overrun, create_file_to_upload}

-- The texts shown: "FTP Upload...", "FTP Upload OK", "FTP Upload KO", "FTP Upload ERROR".
pub data Shown : Type 0 where
  uploading : Shown
  upload_ok : Shown
  upload_ko : Shown
  upload_error : Shown

pub record Uploader : Type 0 where
  pub files : Files
  pub modem : Modem
  pub lasttransferperiod : ℤ
  pub transferperiod : ℤ
  pub shown : List Shown

-- What one call sees: the two clocks, the calendar, and the records logged during the transfer.
pub record Call : Type 0 where
  pub now : ℤ
  pub time : ℤ
  pub calendar : Calendar
  pub during : List (List ℕ)

-- The value that `GestFtp` returns and the state, or undefined behaviour in `CreateFileToUpload`.
pub data Finished : Type 0 where
  returns_zero : Uploader → Finished
  returns_error : Uploader → Finished
  undefined : Finished

abbrev pub show : Shown → Uploader → Uploader
show text u = record u { shown = u.shown ++ (text ∷ []) }

-- `ForceUpload`
unfoldable pub force_upload : ℤ → ℤ → Uploader → Uploader
force_upload now sec u = record u { lasttransferperiod = now -ℤ u.transferperiod +ℤ sec }

unfoldable pub init_ri_mms : ℤ → Uploader → Uploader
init_ri_mms now u = record u {
  lasttransferperiod = now -ℤ u.transferperiod +ℤ pos 30;
  files = record u.files { ftp_uploading = false };
}

-- `Tag_SOR(0)` and the tag.
abbrev pub log_event : Call → List ℕ → Files → Files
log_event call tag f = log tag (log (tag_sor call.calendar call.time (pos 0)) f)

abbrev pub log_all : List (List ℕ) → Files → Files
log_all [] f = f
log_all (record_bytes ∷ rest) f = log_all rest (log record_bytes f)

abbrev pub is_due : ℤ → Uploader → Bool
is_due now u = leb_ℤ u.transferperiod (now -ℤ u.lasttransferperiod)

-- The two ways in which DATA_FILE cannot be loaded.
unfoldable pub load_failed : Call → Uploader → Finished
load_failed call u =
    let logged = log_event call tag_download_failed (remove_file_to_upload u.files) in
    returns_error (record (show upload_error u) { files = record logged { ftp_uploading = false } })

-- From the result of `ftpupload_RiMMS` on.
abbrev pub settle : Call → Bool → Uploader → Uploader
settle call true u =
    let cleared = remove_file_sample u.files in
    let logged = log_event call tag_storage_cleared cleared in
    record (show upload_ok u) { files = log_event call tag_download_completed logged }
settle call false u =
    let forced = show upload_ko (force_upload call.now (pos 15) u) in
    record forced { files = log_event call tag_download_failed u.files }

abbrev pub close_upload : Uploader → Uploader
close_upload u =
    let removed = remove_file_to_upload u.files in
    record u { files = remove_ram (append_ram (record removed { ftp_uploading = false })) }

-- With what `LoadFile` gave.
unfoldable pub send : (List ℕ → Bool) → Call → Uploader → Option (List ℕ) → Finished
unfolding force_upload
send ftp call u none = load_failed call u
send ftp call u (some buffer) =
    if length buffer == 0
    then load_failed call u
    else (let logged = record u { files = log_all call.during u.files } in
        returns_zero (close_upload (settle call (ftp buffer) logged)))

abbrev pub transfer : Libs → (List ℕ → Bool) → Call → Uploader → Finished
transfer libs ftp call u = send ftp call u (load_file libs u.files.upload)

-- What `CreateFileToUpload` left.
unfoldable pub after_create : Libs → (List ℕ → Bool) → Call → Uploader → Created → Finished
after_create libs ftp call u (created files) = transfer libs ftp call (record u { files = files })
after_create libs ftp call u (failed files) =
    returns_error
      (record (show upload_error u) { files = log_event call tag_download_failed files })
after_create libs ftp call u overrun = undefined

-- The upload proper, the modem being online.
unfoldable pub start_upload : Libs → (List ℕ → Bool) → Call → Uploader → Finished
start_upload libs ftp call u =
    let started = show uploading (record u {
      lasttransferperiod = call.now;
      files = log_event call tag_download_started (record u.files { ftp_uploading = true });
    }) in
    after_create libs ftp call started (create_file_to_upload libs started.files)

unfoldable pub gest_ftp : Libs → (List ℕ → Bool) → Call → Uploader → Finished
gest_ftp libs ftp call u =
    if is_due call.now u
    then (let asked = record u { modem = set_modem_status true u.modem } in
        if get_modem_status asked.modem
        then start_upload libs ftp call asked
        else returns_zero
            (record asked { lasttransferperiod = call.now -ℤ asked.transferperiod +ℤ pos 15 }))
    else returns_zero u
