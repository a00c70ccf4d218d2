-- ===== src/System/Readable.antt =====
-- The sample file of the running program.
use ri_mms_linux.Prelude.{ℕ, ◌≡◌, List, length}
use mathlib.Core.Path.{subst}
use ri_mms_linux.Prelude.Int.{ℤ}
use ri_mms_linux.Log.{content}
use ri_mms_linux.Log.Tags.{tag_power_off}
use ri_mms_linux.Log.Entries.{AllRecords, power_off, concat, read_records, read_records-concat}
use ri_mms_linux.Log.Readable.{IsLogged}
use ri_mms_linux.Radio.Logging.{logging, files-IsLogging}
use ri_mms_linux.Radio.Receiver.Logged.{parser-IsLogging}
use ri_mms_linux.Upload.{returns_zero, returns_error}
use ri_mms_linux.Upload.Logged.{Saves, zero_saves, error_saves, gest_ftp-Saves}
use ri_mms_linux.Gateway.{Gateway, World, Instant}
use ri_mms_linux.Command.{Parsed, parameters, out_of_bounds, parser_command}
use ri_mms_linux.Command.Reply.{Reply, Executed, executed}
use ri_mms_linux.Command.Exec.{run_command, exec_command}
use ri_mms_linux.Command.Exec.Logged.{
  Leaves, leaves, undefined_ends, settled-Leaves, Logged, log_after_sor-Logged, exec_command-Logged,
}
use ri_mms_linux.System.{
  Step, starts, parses, commands, uploads, upload_fails, modem_runs, Reaches, at_start, after,
}

module _ {S : Type 0} (world : World S) where
  pub run_command-Logged :
      (at : Instant) (cmd : List ℕ) (g : Gateway S)
      → length at.stack ≡ 168
      → Logged g
      → Leaves Logged (run_command world at cmd g)
  unfolding run_command
  run_command-Logged at cmd g sized l = settled-Leaves Logged _ (by_parse (parser_command cmd))
    where
      by_parse :
          (p : Parsed)
          → Leaves Logged (elim p [
            | parameters params ↦ exec_command world at params g
            | out_of_bounds ↦ Executed.undefined
          ])
      by_parse (parameters params) = exec_command-Logged world at params g sized l
      by_parse out_of_bounds = undefined_ends

  pub Leaves-Logged :
      {x : Executed S} (code : ℤ) (reply : Reply) (g : Gateway S)
      → x ≡ executed code reply g
      → Leaves Logged x
      → Logged g
  Leaves-Logged code reply g e l = executed_state (subst (Leaves Logged) e l)
    where
      executed_state : Leaves Logged (executed code reply g) → Logged g
      executed_state (leaves _ _ _ p) = p

  pub Step-Logged : (g g' : Gateway S) → Step world g g' → Logged g → Logged g'
  Step-Logged g _ (starts at) l = log_after_sor-Logged world at tag_power_off g power_off l
  Step-Logged g _ (parses m cal stack bytes) l =
      files-IsLogging (parser-IsLogging m cal stack bytes g.radio (logging g.radio l))
  Step-Logged g g' (commands at cmd code reply _ sized e) l =
      Leaves-Logged code reply g' e (run_command-Logged at cmd g sized l)
  Step-Logged g _ (uploads libs ftp call u during e) l =
      zero_state (subst Saves e (gest_ftp-Saves call libs ftp during _ l))
    where
      zero_state : Saves (returns_zero u) → IsLogged u.files
      zero_state (zero_saves _ p) = p
  Step-Logged g _ (upload_fails libs ftp call u during e) l =
      error_state (subst Saves e (gest_ftp-Saves call libs ftp during _ l))
    where
      error_state : Saves (returns_error u) → IsLogged u.files
      error_state (error_saves _ p) = p
  Step-Logged g _ (modem_runs atoi seen _ _) l = l

  Reaches-Logged : (g g' : Gateway S) → Reaches world g g' → Logged g → Logged g'
  Reaches-Logged g _ at_start l = l
  Reaches-Logged g _ (after g' g'' r s) l = Step-Logged g' g'' s (Reaches-Logged g g' r l)

  -- If `fwrite` writes what it is given and the program starts with a SAMPLE_FILE and a SAMPLE_RAM
  -- made of whole records, or with none, then after any calls of `Parser`, of commands, of
  -- `GestFtp` and of `GestModem`, in any order, whatever the sensors, the commands, the database,
  -- the FTP server and the modem do, a reader that knows how many bytes follow each tag code takes
  -- SAMPLE_FILE apart into records of the tag functions, without rest. A command that writes
  -- outside an array, which C leaves undefined, has no state after it, and the modem's replies fit
  -- the arrays of their words.
  pub Reaches-read_records :
      (g g' : Gateway S)
      → Reaches world g g'
      → IsLogged (g.radio).files
      → (bs : List (List ℕ)) × AllRecords bs
        × (content ((g'.radio).files).sample ≡ concat bs)
        × (read_records (length bs) (content ((g'.radio).files).sample) ≡ bs)
  Reaches-read_records g g' r l =
      let p = (Reaches-Logged g g' r l).in_sample in
      (p.records, p.all_records, p.whole, rw p.whole (read_records-concat p.records p.all_records))
