-- ===== src/Tests/Texts.antt =====
-- The texts that the program reads and writes, at concrete inputs.
use ri_mms_linux.Prelude.{
  ℕ, ◌<◌, ◌≡◌, ◌≢◌, refl, arith, Bool, true, false, List, [], ◌∷◌, ◌++◌, map, some, length,
  replicate, length-replicate, codes, if◌then◌else◌,
}
use ri_mms_linux.Prelude.Int.{ℤ, pos, negsuc}
use ri_mms_linux.CommandLine.{
  PidFile, runs, exits, kill_from_pid_file, option_line, parse_command_line,
}
use ri_mms_linux.CommandLine.Switches.{parse_command_line_lem}
use ri_mms_linux.Display.Gest.{Display}
use ri_mms_linux.Display.Shows.{Screen}
use ri_mms_linux.Display.Write.{Meets, returns, stopped_text, show_farewell, write_display}
use ri_mms_linux.Display.Write.Farewell.{ready, Wrote, last_text, show_farewell-Wrote}
use ri_mms_linux.Display.Write.Busy.{write_display_stuck}
use ri_mms_linux.Modem.Reply.{modem_operator, split_words}
use ri_mms_linux.Modem.Reply.Operators.{IsWord, cops_text, modem_operator_two}
use ri_mms_linux.Modem.Reply.Words.{IsPlain, plain_nil, plain_cons}
use ri_mms_linux.Tests.Displays.{display}
use ri_mms_linux.Tests.Fixtures.{modem}

abbrev file : PidFile
file = record { pid = some (some (pos 871)); kills = true }

abbrev args : List (List ℕ)
args = codes "--nd" ∷ codes "--verbose" ∷ codes "--logftp" ∷ []

parse_command_line_lem_example :
    (parse_command_line file args
      ≡ runs (record { debug = false; logftp = true; demon = false }) (map option_line args))
    × (parse_command_line file (args ++ (codes "--kill" ∷ []))
        ≡ exits (map option_line args ++ (kill_from_pid_file file ∷ [])))
parse_command_line_lem_example = parse_command_line_lem file args [] (refl, (refl, (refl, tt)))

abbrev meets : Meets
meets = record {
  keyboard = record {
    enable = true;
    menulevel = 0;
    menuindex = 0;
    filtersw1 = 0;
    filtersw2 = 0;
    filtersw3 = 0;
    filtersw4 = 0;
  };
  alim = true;
  freed = false;
}

abbrev blank_line : List ℕ
blank_line = replicate 16 32

abbrev screen : Screen
screen = record { line_of = λ k. blank_line; at_x = 0; at_y = 0 }

show_farewell-Wrote_example :
    Wrote stopped_text
      (last_text true false)
      screen
      (show_farewell meets true false (ready blank_line blank_line blank_line blank_line display))
show_farewell-Wrote_example =
    show_farewell-Wrote meets true false blank_line blank_line blank_line blank_line display screen
      refl (length-replicate {A = ℕ} 16 32) (length-replicate {A = ℕ} 16 32)
      (length-replicate {A = ℕ} 16 32) (length-replicate {A = ℕ} 16 32) refl refl

-- The format is short, the text is not.
write_display_stuck_example :
    (d' : Display) × (write_display meets 0 1 (codes "%s") (replicate 17 65) display
      ≡ returns (negsuc 0) [] d')
    × (code : ℤ) × (write_display meets 0 0 (codes "OK") (codes "OK") d' ≡ returns code [] d')
    × (code ≢ pos 0)
write_display_stuck_example =
    write_display_stuck meets meets 0 1 0 0 (codes "%s") (replicate 17 65) (codes "OK") (codes "OK")
      display refl refl (omega arith) (omega arith) (omega arith) (omega arith) refl

abbrev all_plain : (ℕ → Bool) → List ℕ → Bool
all_plain separator [] = true
all_plain separator (c ∷ word) = if separator c then false else all_plain separator word

all_plain-IsWord :
    (separator : ℕ → Bool) (word : List ℕ)
    → 0 < length word
    → all_plain separator word ≡ true
    → IsWord separator word
all_plain-IsWord separator word nonempty e = record { nonempty = nonempty; plain = by_chars word e }
  where
    by_chars : (w : List ℕ) → all_plain separator w ≡ true → IsPlain separator w
    by_chars [] h = plain_nil
    by_chars (c ∷ w) h = plain_cons c w (ground (arith, h)) (by_chars w (ground (arith, h)))

modem_operator_two_example :
    modem_operator
      (some (cops_text (codes "0") (codes "0") (codes "I" ++ (32 ∷ codes "TIM")) (codes "2") []))
      modem
    ≡ record modem { operatorname = codes "TIM"; registered = true }
unfolding split_words
modem_operator_two_example =
    modem_operator_two (codes "0") (codes "0") (codes "2") []
      (all_plain-IsWord _ _ (omega arith) refl) (all_plain-IsWord _ _ (omega arith) refl)
      (all_plain-IsWord _ _ (omega arith) refl) modem (codes "I") (codes "TIM")
      (record { few = omega arith; short = omega arith }) (all_plain-IsWord _ _ (omega arith) refl)
      (all_plain-IsWord _ _ (omega arith) refl)
