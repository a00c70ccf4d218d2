-- ===== src/System.antt =====
-- The program as its threads run it, sw/main.c: `thread_RiMMS` calls `Parser` and then a command
-- from the shared memory, `thread_comunication` calls `GestFtp` and then a command from the
-- network, `thread_modem` calls `GestModem`. A step is one call. The calls of different threads
-- come in any order; what the radio logs while `GestFtp` transfers is part of that step. Two calls
-- that interleave otherwise are not modelled.
pub mod Readable
use ri_mms_linux.Prelude.{ℕ, Bool, ◌≡◌, List, [], length}
use ri_mms_linux.Prelude.Int.{ℤ, pos}
use ri_mms_linux.Log.Stamp.{Calendar}
use ri_mms_linux.Log.Tags.{tag_power_off}
use ri_mms_linux.Log.Entries.{AllRecords}
use ri_mms_linux.Radio.State.{Moment}
use ri_mms_linux.Radio.Payload.{Stack}
use ri_mms_linux.Radio.Receiver.{parser}
use ri_mms_linux.Modem.Reply.{ReplyFits, separator_signal, separator_operator}
use ri_mms_linux.Modem.Gest.{Seen, gest_modem}
use ri_mms_linux.Archive.{Libs}
use ri_mms_linux.Upload.{Uploader, Call, returns_zero, returns_error, gest_ftp}
use ri_mms_linux.Gateway.{Gateway, World, Instant, log_after_sor}
use ri_mms_linux.Command.Reply.{Reply, executed}
use ri_mms_linux.Command.Exec.{run_command}

module _ {S : Type 0} where
  -- The globals that `GestFtp` uses.
  abbrev pub uploader_of : Gateway S → Uploader
  uploader_of g = record {
    files = (g.radio).files;
    modem = g.modem;
    lasttransferperiod = (g.radio).lasttransferperiod;
    transferperiod = (g.radio).transferperiod;
    shown = [];
  }

  abbrev pub put_uploader : Uploader → Gateway S → Gateway S
  put_uploader u g = record g {
    modem = u.modem;
    radio = record g.radio {
      files = u.files;
      lasttransferperiod = u.lasttransferperiod;
      transferperiod = u.transferperiod;
    };
  }

module _ {S : Type 0} (world : World S) where
  -- `starts` is what `thread_comunication` does before its loop: `Tag_SOR(0); Tag_POWER_OFF();`.
  pub data Step (g : Gateway S) : Gateway S → Type 0 where
    starts : (at : Instant) → Step g (log_after_sor at tag_power_off g)
    parses :
        (m : Moment) (cal : Calendar) (stack : Stack) (bytes : List ℕ)
        → Step g (record g { radio = parser m cal stack bytes g.radio })
    commands :
        (at : Instant) (cmd : List ℕ) (code : ℤ) (reply : Reply) (g' : Gateway S)
        → length at.stack ≡ 168
        → run_command world at cmd g ≡ executed code reply g'
        → Step g g'
    uploads :
        (libs : Libs) (ftp : List ℕ → Bool) (call : Call) (u : Uploader)
        → AllRecords call.during
        → gest_ftp libs ftp call (uploader_of g) ≡ returns_zero u
        → Step g (put_uploader u g)
    upload_fails :
        (libs : Libs) (ftp : List ℕ → Bool) (call : Call) (u : Uploader)
        → AllRecords call.during
        → gest_ftp libs ftp call (uploader_of g) ≡ returns_error u
        → Step g (put_uploader u g)
    modem_runs :
        (atoi : List ℕ → ℕ) (seen : Seen)
        → ReplyFits separator_signal seen.csq
        → ReplyFits separator_operator seen.cops
        → Step g (record g { modem = gest_modem atoi seen g.modem })

  pub data Reaches (g : Gateway S) : Gateway S → Type 0 where
    at_start : Reaches g g
    after : (g' g'' : Gateway S) → Reaches g g' → Step g' g'' → Reaches g g''
