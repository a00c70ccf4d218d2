-- ===== src/Upload/Timer.antt =====
-- When an upload is tried, and what becomes of the unit when a file to upload is not there.
use ri_mms_linux.Prelude.{
  ℕ, ◌≡◌, ◌⊎◌, inl, inr, refl, ap, sym, arith, Bool, true, false, List, Option, none, some, length,
  ◌==◌, if◌then◌else◌,
}
use mathlib.Core.Path.{subst}
use ri_mms_linux.Prelude.Int.{pos, ◌+ℤ◌, ◌-ℤ◌}
use ri_mms_linux.Log.{Files, write_to_file, remove_file_to_upload}
use ri_mms_linux.Log.Stamp.{tag_sor}
use ri_mms_linux.Log.Tags.{log, tag_download_started, tag_download_failed}
use ri_mms_linux.Modem.{get_modem_status, set_modem_status}
use ri_mms_linux.Archive.{Libs, Created, load_file, load_then, failed, create_file_to_upload}
use ri_mms_linux.Archive.Create.{without_upload, after_removal}
use ri_mms_linux.Upload.{
  Uploader, Call, Finished, returns_zero, returns_error, log_event, is_due, show, uploading,
  after_create, start_upload, gest_ftp,
}

-- There is no SAMPLE_FILE or no HEADER_FILE.
abbrev pub Missing : Files → Type 0
Missing f = (f.sample ≡ none) ⊎ (f.header ≡ none)

-- FtpUploading is set as well: what is logged goes to SAMPLE_RAM.
pub record IsStuck (f : Files) : Type 0 where
  pub missing : Missing f
  pub diverted : f.ftp_uploading ≡ true

-- The call returns, in a state with the property.
pub data Ends (P : Uploader → Type 0) : Finished → Type 0 where
  zero_ends : (u : Uploader) → P u → Ends P (returns_zero u)
  error_ends : (u : Uploader) → P u → Ends P (returns_error u)

-- Whatever is logged, a stuck unit stays so.
pub log-IsStuck : (bytes : List ℕ) (f : Files) → IsStuck f → IsStuck (log bytes f)
unfolding write_to_file
log-IsStuck bytes f s = record {
  missing = elim s.missing [
    | inl e ↦ inl (ground (arith, s.diverted))
    | inr e ↦ inr (ground (arith, s.diverted))
  ];
  diverted = ground (arith, s.diverted);
}

log_event-IsStuck :
    (call : Call) (tag : List ℕ) (f : Files) → IsStuck f → IsStuck (log_event call tag f)
log_event-IsStuck call tag f s =
    log-IsStuck tag _ (log-IsStuck (tag_sor call.calendar call.time (pos 0)) f s)

load_then-failed :
    (libs : Libs) (file : Option (List ℕ)) (f : Files) (next : List ℕ → Created)
    → ((bytes : List ℕ) → next bytes ≡ failed f)
    → load_then libs file f next ≡ failed f
unfolding load_then load_file
load_then-failed libs none f next fails = refl
load_then-failed libs (some bytes) f next fails = by_memory (libs.calloc (length bytes))
  where
    by_length : (empty : Bool) → (if empty then failed f else next bytes) ≡ failed f
    by_length true = refl
    by_length false = fails bytes

    by_memory :
        (given : Bool)
        → (elim (if given then some bytes else none) as (λ o. Created) [
          | none ↦ failed f
          | some b ↦ if length b == 0 then failed f else next b
        ])
          ≡ failed f
    by_memory true = by_length (length bytes == 0)
    by_memory false = refl

create_file_to_upload-Missing :
    (libs : Libs) (f : Files)
    → Missing f
    → create_file_to_upload libs f ≡ failed (remove_file_to_upload f)
unfolding create_file_to_upload load_then load_file remove_file_to_upload
create_file_to_upload-Missing libs f (inl e) = by_removal f.writable
  where
    by_removal :
        (w : Bool)
        → after_removal libs (if w then without_upload f else f)
          ≡ failed (if w then without_upload f else f)
    by_removal true = rw e refl
    by_removal false = rw e refl
create_file_to_upload-Missing libs f (inr e) = by_removal f.writable
  where
    by_removal :
        (w : Bool)
        → after_removal libs (if w then without_upload f else f)
          ≡ failed (if w then without_upload f else f)
    by_removal true = load_then-failed libs f.sample _ _ λ sample. rw e refl
    by_removal false = load_then-failed libs f.sample _ _ λ sample. rw e refl

start_upload-Missing :
    (libs : Libs) (ftp : List ℕ → Bool) (call : Call) (u : Uploader)
    → Missing u.files
    → Ends (λ u'. IsStuck u'.files) (start_upload libs ftp call u)
unfolding start_upload after_create remove_file_to_upload
start_upload-Missing libs ftp call u e =
    subst (Ends (λ u'. IsStuck u'.files)) (sym result)
      (error_ends _ (log_event-IsStuck call tag_download_failed _ removed))
  where
    busy_unit : Files → Uploader
    busy_unit g = show uploading (record u { lasttransferperiod = call.now; files = g })

    f : Files
    f = log_event call tag_download_started (record u.files { ftp_uploading = true })

    busy : IsStuck f
    busy = log_event-IsStuck call tag_download_started _ (record { missing = e; diverted = refl })

    removed : IsStuck (remove_file_to_upload f)
    removed = by_writable f.writable
      where
        by_writable : (w : Bool) → IsStuck (if w then without_upload f else f)
        by_writable true = record { missing = busy.missing; diverted = busy.diverted }
        by_writable false = busy

    result :
        start_upload libs ftp call u
        ≡ after_create libs ftp call (busy_unit f) (failed (remove_file_to_upload f))
    result =
        ap (after_create libs ftp call (busy_unit f))
          (create_file_to_upload-Missing libs f busy.missing)

-- A call of `GestFtp` without a SAMPLE_FILE or a HEADER_FILE, when it is due and the modem is online,
-- returns -1 and leaves FtpUploading set: from then on what is logged goes to SAMPLE_RAM.
gest_ftp-Missing :
    (libs : Libs) (ftp : List ℕ → Bool) (call : Call) (u : Uploader)
    → Missing u.files
    → is_due call.now u ≡ true
    → get_modem_status u.modem ≡ true
    → Ends (λ u'. IsStuck u'.files) (gest_ftp libs ftp call u)
unfolding gest_ftp set_modem_status get_modem_status
gest_ftp-Missing libs ftp call u e due online =
    rw due (rw online (start_upload-Missing libs ftp call _ e))

-- A unit without SAMPLE_FILE or HEADER_FILE and with FtpUploading set stays so through every later
-- call of `GestFtp`, whatever the libraries, the clock and the modem do: no upload succeeds any more.
pub gest_ftp-IsStuck :
    (libs : Libs) (ftp : List ℕ → Bool) (call : Call) (u : Uploader)
    → IsStuck u.files
    → Ends (λ u'. IsStuck u'.files) (gest_ftp libs ftp call u)
unfolding gest_ftp set_modem_status get_modem_status
gest_ftp-IsStuck libs ftp call u s = by_tests (is_due call.now u) (get_modem_status u.modem)
  where
    by_tests :
        (due online : Bool)
        → Ends
            (λ u'. IsStuck u'.files)
            (if due
              then (if online
                  then start_upload libs ftp call
                      (record u { modem = set_modem_status true u.modem })
                  else returns_zero (record u {
                    modem = set_modem_status true u.modem;
                    lasttransferperiod = call.now -ℤ u.transferperiod +ℤ pos 15;
                  }))
              else returns_zero u)
    by_tests true true = start_upload-Missing libs ftp call _ s.missing
    by_tests true false = zero_ends _ s
    by_tests false online = zero_ends u s
