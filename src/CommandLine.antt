-- ===== src/CommandLine.antt =====
-- `ParseCommandLine` of sw/main.c, with the `killFromPidFile` that it calls.
pub mod Switches
use ri_mms_linux.Prelude.{
  ℕ, Bool, true, false, List, [], ◌∷◌, ◌++◌, Option, none, some, codes, same_text, if◌then◌else◌,
}
use ri_mms_linux.Prelude.Int.{ℤ}

pub record Options : Type 0 where
  pub debug : Bool
  pub logftp : Bool
  pub demon : Bool

-- What is printed.
pub data Line : Type 0 where
  debug_enabled log_ftp_enabled version error_command : Line
  -- of `killFromPidFile`
  unable_to_open unable_to_read : Line
  unable_to_kill stopped : ℤ → Line

-- `none` is a file that cannot be opened, `some none` one that `fscanf` reads no number from.
pub record PidFile : Type 0 where
  pub pid : Option (Option ℤ)
  pub kills : Bool

-- It always ends in `exit(0)`.
unfoldable pub kill_from_pid_file : PidFile → Line
kill_from_pid_file file = elim file.pid [
  | none ↦ unable_to_open
  | some read ↦ elim read [
    | none ↦ unable_to_read
    | some pid ↦ if file.kills then stopped pid else unable_to_kill pid
  ]
]

pub data Parsed : Type 0 where
  runs : Options → List Line → Parsed
  exits : List Line → Parsed

-- One argument other than `--kill`: what it sets and prints.
unfoldable pub set_option : List ℕ → Options → Options
set_option arg o =
    if same_text arg (codes "--debug")
    then record o { debug = true }
    else if same_text arg (codes "--logftp")
    then record o { logftp = true }
    else if same_text arg (codes "--nd")
    then record o { demon = false }
    else o

unfoldable pub option_line : List ℕ → Line
option_line arg =
    if same_text arg (codes "--debug")
    then debug_enabled
    else if same_text arg (codes "--logftp")
    then log_ftp_enabled
    else if same_text arg (codes "--nd")
    then log_ftp_enabled
    else if same_text arg (codes "--ver")
    then version
    else error_command

abbrev pub is_kill : List ℕ → Bool
is_kill arg = same_text arg (codes "--kill")

-- The loop over `argv[1]` and what follows.
unfoldable pub parse_loop : PidFile → List (List ℕ) → Options → List Line → Parsed
parse_loop file [] o lines = runs o lines
parse_loop file (arg ∷ args) o lines =
    let rest = parse_loop file args (set_option arg o) (lines ++ (option_line arg ∷ [])) in
    if is_kill arg then exits (lines ++ (kill_from_pid_file file ∷ [])) else rest

unfoldable pub parse_command_line : PidFile → List (List ℕ) → Parsed
unfolding parse_loop
parse_command_line file args =
    parse_loop file args (record { debug = false; logftp = false; demon = true }) []
