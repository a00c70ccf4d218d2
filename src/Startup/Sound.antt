-- ===== src/Startup/Sound.antt =====
-- What holds of the program from its `main` on.
use ri_mms_linux.Prelude.{◌≡◌, Bool, true, false, Option, none, some, if◌then◌else◌}
use mathlib.Core.Path.{subst}
use ri_mms_linux.Prelude.Int.{pos}
use ri_mms_linux.Board.{Floats}
use ri_mms_linux.CommandLine.{Parsed, runs, exits, parse_command_line}
use ri_mms_linux.Gateway.{World}
use ri_mms_linux.Machine.{Machine, Runs}
use ri_mms_linux.Machine.Sound.{IsSound, Runs-IsSound}
use ri_mms_linux.Startup.Ends.{Ends, goes, halts, IsBeginning}
use ri_mms_linux.Startup.Stages.{boot_parts-Ends}
use ri_mms_linux.Startup.{Boot, Booted, started, stops, boot_parts, main}

module _ {S F : Type 0} (world : World S) (fl : Floats F) (boot : Boot) where
  main-Ends : (m : Machine S F) → IsBeginning m → Ends IsSound (main world fl boot m)
  unfolding main
  main-Ends m v = by_path boot.path_file
    where
      by_line :
          (p : Parsed)
          → Ends IsSound (elim p [
            | runs options lines ↦ boot_parts world fl boot (record m { options = options })
            | exits lines ↦ stops (pos 0) m
          ])
      by_line (runs options lines) =
          boot_parts-Ends world fl boot (record m { options = options })
            (record { len = v.len; text = v.text; logged = v.logged })
      by_line (exits lines) = halts _ _

      by_path :
          (path : Option Bool)
          → Ends IsSound (elim path [
            | none ↦ stops (pos 1) m
            | some has_path ↦
                if has_path
                then (elim (parse_command_line boot.pid_file boot.argv) [
                  | runs options lines ↦ boot_parts world fl boot (record m { options = options })
                  | exits lines ↦ stops (pos 0) m
                ])
                else stops (pos 1) m
          ])
      by_path none = halts _ _
      by_path (some false) = halts _ _
      by_path (some true) = by_line (parse_command_line boot.pid_file boot.argv)

  Ends-started :
      (P : Machine S F → Type 0) (x : Booted S F) (m : Machine S F) → x ≡ started m → Ends P x → P m
  Ends-started P x m e h = now (subst (Ends P) e h)
    where
      now : Ends P (started m) → P m
      now (goes _ p) = p

  -- Whatever the command line, the database, the modem, the display and the operating system give:
  -- if the sample files hold whole records, `fwrite` writes what it is given and no text scrolls
  -- when the program begins, and `main` comes to start all its threads, then from there on, after
  -- any calls of the threads, any signals and any input, in any order, the receiver is well formed,
  -- the two sample files are whole records, the battery is in charge only with the mains present,
  -- the display's text is well formed, and while the threads are told to go on neither a reboot nor
  -- a shutdown has been asked for. This is said of runs, `main` included, without a call that
  -- writes outside the arrays of the database, the commands and their replies, the modem's words
  -- and the display: C leaves undefined what follows such a call, and it ends the run here.
  pub main-IsSound :
      (m booted later : Machine S F)
      → IsBeginning m
      → main world fl boot m ≡ started booted
      → Runs world fl booted later
      → IsSound later
  main-IsSound m booted later v e r =
      Runs-IsSound world fl booted later r (Ends-started IsSound _ booted e (main-Ends m v))
