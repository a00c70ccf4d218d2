-- ===== src/Upload/Samples.antt =====
-- What an upload does with the samples: what is sent, and what the unit still has afterwards.
use ri_mms_linux.Prelude.{
  ℕ, ◌+◌, ◌<◌, ◌≤◌, ◌≡◌, refl, ap, sym, ◌∙◌, arith, Bool, true, false, List, [], ◌∷◌, ◌++◌, Option,
  none, some, length, ==_of_ne, if◌then◌else◌, append_assoc, append-nil,
}
use ri_mms_linux.Log.{
  Files, content, write_to_file, remove_file_to_upload, remove_file_sample, append_ram, remove_ram,
}
use ri_mms_linux.Log.Laws.{stored}
use ri_mms_linux.Log.Stamp.{tag_sor}
use ri_mms_linux.Log.Tags.{
  tag_download_started, tag_download_completed, tag_download_failed, tag_storage_cleared,
}
use ri_mms_linux.Log.Entries.{concat}
use ri_mms_linux.Prelude.Int.{pos}
use ri_mms_linux.Modem.{get_modem_status, set_modem_status}
use ri_mms_linux.Archive.{Libs, load_file, create_file_to_upload}
use ri_mms_linux.Archive.Create.{IsPrepared, create_file_to_upload-read_archive}
use ri_mms_linux.Archive.Format.{read_archive}
use ri_mms_linux.Upload.{
  Uploader, Call, returns_zero, log_event, log_all, is_due, settle, close_upload, show, uploading,
  load_failed, send, transfer, after_create, start_upload, gest_ftp,
}

-- Files that can be written, with samples.
abbrev pub ready : List ℕ → Option (List ℕ) → List ℕ → Option (List ℕ) → Bool → Files
ready sample ram header upload busy = record {
  sample = some sample;
  sample_ram = ram;
  header = some header;
  upload = upload;
  writable = true;
  fwrite = λ bytes. bytes;
  ftp_uploading = busy;
}

-- `Tag_SOR(0)` and a tag.
abbrev pub event : Call → List ℕ → List ℕ
event call tag = tag_sor call.calendar call.time (pos 0) ++ tag

-- The events at the end of a transfer, by whether it went well.
abbrev pub closing : Call → Bool → List ℕ
closing call true = event call tag_storage_cleared ++ event call tag_download_completed
closing call false = event call tag_download_failed

abbrev ram_after : List (List ℕ) → Option (List ℕ) → Option (List ℕ)
ram_after [] ram = ram
ram_after (b ∷ bs) ram = ram_after bs (some (content ram ++ b))

content-ram_after :
    (bs : List (List ℕ)) (ram : Option (List ℕ))
    → content (ram_after bs ram) ≡ content ram ++ concat bs
content-ram_after [] ram = sym (append-nil (content ram))
content-ram_after (b ∷ bs) ram =
    content-ram_after bs (some (content ram ++ b)) ∙ append_assoc (content ram) b (concat bs)

log_all-ready :
    (bs : List (List ℕ)) (s : List ℕ) (ram : Option (List ℕ)) (h : List ℕ) (up : Option (List ℕ))
    → log_all bs (ready s ram h up true) ≡ ready s (ram_after bs ram) h up true
unfolding write_to_file
log_all-ready [] s ram h up = refl
log_all-ready (b ∷ bs) s ram h up = log_all-ready bs s (some (content ram ++ b)) h up

log_event-ready :
    (call : Call) (tag s : List ℕ) (ram : Option (List ℕ)) (h : List ℕ) (up : Option (List ℕ))
    → log_event call tag (ready s ram h up true)
      ≡ ready s (some (content ram ++ event call tag)) h up true
unfolding write_to_file
log_event-ready call tag s ram h up =
    ap (λ bytes. ready s (some bytes) h up true) (append_assoc (content ram) _ tag)

settled :
    (call : Call) (ok : Bool) (u : Uploader) (s : List ℕ) (ram : Option (List ℕ)) (h : List ℕ)
    (up : Option (List ℕ))
    → (close_upload (settle call ok (record u { files = ready s ram h up true }))).files
      ≡ ready ((if ok then [] else s) ++ (content ram ++ closing call ok)) none h none false
unfolding write_to_file remove_file_to_upload remove_file_sample append_ram remove_ram
settled call true u s ram h up =
    ap (λ bytes. ready bytes none h none false)
      (four (content ram) _ tag_storage_cleared _ tag_download_completed)
  where
    four : (xs a b c d : List ℕ) → ((((xs ++ a) ++ b) ++ c) ++ d) ≡ xs ++ ((a ++ b) ++ (c ++ d))
    four xs a b c d = simp append_assoc
settled call false u s ram h up =
    ap (λ bytes. ready (s ++ bytes) none h none false)
      (append_assoc (content ram) _ tag_download_failed)

gest_ftp_due :
    (libs : Libs) (ftp : List ℕ → Bool) (call : Call) (u : Uploader)
    → is_due call.now u ≡ true
    → get_modem_status u.modem ≡ true
    → gest_ftp libs ftp call u
      ≡ start_upload libs ftp call (record u { modem = set_modem_status true u.modem })
unfolding gest_ftp set_modem_status get_modem_status
gest_ftp_due libs ftp call u due online = rw due (rw online refl)

-- The state in which `CreateFileToUpload` is called.
abbrev started : Call → Uploader → Files → Uploader
started call u files = show uploading (record u {
  lasttransferperiod = call.now;
  modem = set_modem_status true u.modem;
  files = files;
})

loaded :
    (libs : Libs) (buffer : List ℕ)
    → libs.calloc (length buffer) ≡ true
    → load_file libs (some buffer) ≡ some buffer
unfolding load_file
loaded libs buffer room = rw room refl

transfer_done :
    (libs : Libs) (ftp : List ℕ → Bool) (call : Call) (u : Uploader) (buffer : List ℕ)
    → u.files.upload ≡ some buffer
    → libs.calloc (length buffer) ≡ true
    → 0 < length buffer
    → transfer libs ftp call u
      ≡ returns_zero (
          close_upload
            (settle call (ftp buffer) (record u { files = log_all call.during u.files })))
unfolding send
transfer_done libs ftp call u buffer e room some_bytes =
    ap (send ftp call u) (ap (load_file libs) e ∙ loaded libs buffer room)
    ∙ ap
        (λ b.
          if b
          then load_failed call u
          else returns_zero (
              close_upload
                (settle call (ftp buffer) (record u { files = log_all call.during u.files }))))
        (==_of_ne (length buffer) 0 (λ z. absurd (omega arith)))

read_archive-nonempty :
    (inflate : List ℕ → Option (List ℕ)) (bytes : List ℕ) (x : List ℕ × List ℕ)
    → read_archive inflate bytes ≡ some x
    → 0 < length bytes
unfolding read_archive
read_archive-nonempty inflate [] x h = absurd (ground (arith, h))
read_archive-nonempty inflate (b ∷ bs) x h = omega arith

-- Let SAMPLE_FILE hold `sample` and SAMPLE_RAM `ram`, the upload be due, the modem online, files be
-- writable and `fwrite` write all, and the archive of header and samples fit as
-- `create_file_to_upload-read_archive` asks. Then `GestFtp` hands the FTP client a buffer from
-- which a reader gets back the header and the samples, and returns 0. Afterwards FtpUploading is 0
-- and the unit has, in one file and in order, the samples if the transfer failed and none of them
-- if it went well, then what SAMPLE_RAM held, the events of the start, what was logged meanwhile,
-- and the events of the end: no record is lost or doubled.
pub gest_ftp-stored :
    (libs : Libs) (ftp : List ℕ → Bool) (call : Call) (u : Uploader)
    (sample header compheader compdata : List ℕ) (ram upload : Option (List ℕ))
    (inflate : List ℕ → Option (List ℕ))
    → u.files ≡ ready sample ram header upload false
    → is_due call.now u ≡ true
    → get_modem_status u.modem ≡ true
    → IsPrepared libs u.files header sample compheader compdata
    → 21 + length compheader + length compdata ≤ length header + length sample + 25
    → inflate compheader ≡ some header
    → inflate compdata ≡ some sample
    → length header < 65536
    → length sample < 65536
    → length compheader < 65536
    → length compdata < 65536
    → (buffer : List ℕ) × (u' : Uploader) × (read_archive inflate buffer ≡ some (header, sample))
      × (gest_ftp libs ftp call u ≡ returns_zero u')
      × (u'.files.ftp_uploading ≡ false)
      × (stored u'.files
          ≡ (if ftp buffer then [] else sample)
            ++ (content ram
                ++ (event call tag_download_started
                    ++ (concat call.during ++ closing call (ftp buffer)))))
unfolding start_upload after_create
gest_ftp-stored libs ftp call u s h ch cd ram up inflate files due online p fits bh bs fh fs fch
      fcd =
    let (bytes, made, back) =
      create_file_to_upload-read_archive libs f1 h s ch cd inflate prepared fits bh bs fh fs fch
        fcd in
    (
      bytes,
      last bytes,
      back,
      gest_ftp_due libs ftp call u due online
          ∙ ap (λ f. after_create libs ftp call (started call u f) (create_file_to_upload libs f))
              begun
          ∙ ap (after_create libs ftp call (started call u f1)) made
          ∙ transfer_done libs ftp call (started call u (f2 bytes)) bytes refl
              (p.room (length bytes)) (read_archive-nonempty inflate bytes (h, s) back)
          ∙ ap (λ f. returns_zero (close_upload (settle call (ftp bytes) (started call u f))))
              (log_all-ready call.during s (some ram1) h (some bytes)),
      ap (λ f. f.ftp_uploading) (ended bytes),
      ap stored (ended bytes)
          ∙ append-nil _
          ∙ ap (λ t. (if ftp bytes then [] else s) ++ t) (tail bytes),
    )
  where
    ram1 : List ℕ
    ram1 = content ram ++ event call tag_download_started

    f1 : Files
    f1 = ready s (some ram1) h up true

    f2 : List ℕ → Files
    f2 bytes = ready s (some ram1) h (some bytes) true

    prepared : IsPrepared libs f1 h s ch cd
    prepared = record {
      has_header = refl;
      has_sample = refl;
      some_header = p.some_header;
      some_sample = p.some_sample;
      packs_header = p.packs_header;
      packs_sample = p.packs_sample;
      room = p.room;
      can_write = refl;
      whole_writes = λ bytes. refl;
    }

    begun : log_event call tag_download_started (record u.files { ftp_uploading = true }) ≡ f1
    begun =
        ap (λ f. log_event call tag_download_started (record f { ftp_uploading = true })) files
        ∙ log_event-ready call tag_download_started s ram h up

    last : List ℕ → Uploader
    last bytes = close_upload (
        settle call (ftp bytes)
          (started call u (ready s (ram_after call.during (some ram1)) h (some bytes) true)))

    rest : List ℕ → List ℕ
    rest bytes = content (ram_after call.during (some ram1)) ++ closing call (ftp bytes)

    ended :
        (bytes : List ℕ)
        → (last bytes).files ≡ ready ((if ftp bytes then [] else s) ++ rest bytes) none h none false
    ended bytes =
        settled call (ftp bytes) (started call u f1) s (ram_after call.during (some ram1)) h
          (some bytes)

    tail :
        (bytes : List ℕ)
        → rest bytes
          ≡ content ram
            ++ (event call tag_download_started ++ (concat call.during ++ closing call (ftp bytes)))
    tail bytes = rw (content-ram_after call.during (some ram1)) (simp append_assoc)
