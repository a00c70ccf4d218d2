-- ===== src/Upload/Logged.antt =====
-- What `GestFtp` leaves of the sample files: whole records, however the upload ends.
use ri_mms_linux.Prelude.{
  ℕ, Bool, true, false, List, [], ◌∷◌, Option, none, some, length, ◌==◌, if◌then◌else◌,
}
use ri_mms_linux.Prelude.Int.{pos}
use ri_mms_linux.Log.{Files, remove_file_to_upload, append_ram}
use ri_mms_linux.Log.Tags.{
  tag_download_started, tag_download_completed, tag_download_failed, tag_storage_cleared,
}
use ri_mms_linux.Log.Entries.{
  IsRecord, AllRecords, sor, download_started, download_completed, download_failed, storage_cleared,
}
use ri_mms_linux.Log.Readable.{
  IsLogged, log-IsLogged, if-IsLogged, set_upload-IsLogged, set_uploading-IsLogged,
  remove_file_sample-IsLogged, remove_ram-IsLogged, append_ram-IsLogged,
}
use ri_mms_linux.Modem.{set_modem_status}
use ri_mms_linux.Archive.{Libs, Created}
use ri_mms_linux.Archive.Create.{Kept, kept, none_left, locked, create_file_to_upload-Kept}
use ri_mms_linux.Upload.{
  Uploader, Call, Finished, returns_zero, returns_error, log_event, log_all, is_due, load_failed,
  settle, close_upload, send, after_create, start_upload, gest_ftp,
}

-- If the call has a defined end, the sample files are readable after it.
pub data Saves : Finished → Type 0 where
  zero_saves : (u : Uploader) → IsLogged u.files → Saves (returns_zero u)
  error_saves : (u : Uploader) → IsLogged u.files → Saves (returns_error u)
  undefined_saves : Saves Finished.undefined

if-Saves : (b : Bool) (x y : Finished) → Saves x → Saves y → Saves (if b then x else y)
if-Saves true x y p q = p
if-Saves false x y p q = q

module _ (call : Call) where
  log_event-IsLogged :
      (tag : List ℕ) (f : Files) → IsRecord tag → IsLogged f → IsLogged (log_event call tag f)
  log_event-IsLogged tag f r l =
      log-IsLogged tag _ r (log-IsLogged _ f (sor call.calendar call.time (pos 0)) l)

  log_all-IsLogged :
      (bs : List (List ℕ)) (f : Files) → AllRecords bs → IsLogged f → IsLogged (log_all bs f)
  log_all-IsLogged [] f r l = l
  log_all-IsLogged (b ∷ bs) f r l = log_all-IsLogged bs _ r.1 (log-IsLogged b f r.0 l)

  load_failed-Saves : (u : Uploader) → IsLogged u.files → Saves (load_failed call u)
  unfolding load_failed remove_file_to_upload
  load_failed-Saves u l = error_saves _ (
      set_uploading-IsLogged false _ (
        log_event-IsLogged tag_download_failed _ download_failed
          (if-IsLogged (u.files).writable _ _ (set_upload-IsLogged none u.files l) l)))

  settle-IsLogged :
      (sent : Bool) (u : Uploader) → IsLogged u.files → IsLogged (settle call sent u).files
  settle-IsLogged true u l = log_event-IsLogged tag_download_completed _ download_completed (
      log_event-IsLogged tag_storage_cleared _ storage_cleared
        (remove_file_sample-IsLogged u.files l))
  settle-IsLogged false u l = log_event-IsLogged tag_download_failed u.files download_failed l

  close_upload-IsLogged : (u : Uploader) → IsLogged u.files → IsLogged (close_upload u).files
  unfolding remove_file_to_upload
  close_upload-IsLogged u l = remove_ram-IsLogged (append_ram freed) (
      append_ram-IsLogged freed (
        set_uploading-IsLogged false _
          (if-IsLogged (u.files).writable _ _ (set_upload-IsLogged none u.files l) l)))
    where
      freed : Files
      freed = record (remove_file_to_upload u.files) { ftp_uploading = false }

  module _ (libs : Libs) (ftp : List ℕ → Bool) (during : AllRecords call.during) where
    send-Saves : (o : Option (List ℕ)) (u : Uploader) → IsLogged u.files → Saves (send ftp call u o)
    unfolding send
    send-Saves none u l = load_failed-Saves u l
    send-Saves (some buffer) u l =
        let logged : Uploader = record u { files = log_all call.during u.files } in
        if-Saves (length buffer == 0) _ _ (load_failed-Saves u l) (
          zero_saves _ (
            close_upload-IsLogged (settle call (ftp buffer) logged) (
              settle-IsLogged (ftp buffer) logged (log_all-IsLogged call.during u.files during l))))

    after_create-Saves :
        (u : Uploader) (c : Created)
        → Kept u.files c
        → IsLogged u.files
        → Saves (after_create libs ftp call u c)
    unfolding after_create
    after_create-Saves u _ (kept bytes) l = send-Saves _ _ (set_upload-IsLogged (some bytes) _ l)
    after_create-Saves u _ none_left l =
        error_saves _
          (log_event-IsLogged tag_download_failed _ download_failed (set_upload-IsLogged none _ l))
    after_create-Saves u _ (locked e) l =
        error_saves _ (log_event-IsLogged tag_download_failed _ download_failed l)
    after_create-Saves u _ Kept.undefined l = undefined_saves

    start_upload-Saves : (u : Uploader) → IsLogged u.files → Saves (start_upload libs ftp call u)
    unfolding start_upload
    start_upload-Saves u l = after_create-Saves _ _ (create_file_to_upload-Kept libs _) (
        log_event-IsLogged tag_download_started _ download_started
          (set_uploading-IsLogged true _ l))

    -- Whatever the libraries, the FTP server, the clock and the modem do, a `GestFtp` that starts
    -- with a SAMPLE_FILE and a SAMPLE_RAM made of whole records leaves them so, if what the radio
    -- logs during the transfer are records.
    pub gest_ftp-Saves : (u : Uploader) → IsLogged u.files → Saves (gest_ftp libs ftp call u)
    unfolding gest_ftp set_modem_status
    gest_ftp-Saves u l =
        if-Saves (is_due call.now u) _ _ (if-Saves _ _ _ (start_upload-Saves _ l) (zero_saves _ l))
          (zero_saves u l)
