-- ===== src/Tests/Displays.antt =====
-- The queue of texts, the command parser and the configuration at concrete inputs.
use ri_mms_linux.Prelude.{
  ℕ, suc, codes, List, true, ◌≡◌, refl, arith, false, [], ◌∷◌, ◌++◌, some, replicate,
  length-replicate, inl,
}
use ri_mms_linux.Prelude.Int.{pos}
use ri_mms_linux.Modem.{ModemType}
use ri_mms_linux.Config.{Settings, load_config}
use ri_mms_linux.Config.Limits.{IsUsable, load_config-IsUsable}
use ri_mms_linux.Ring.{Ring}
use ri_mms_linux.Ring.Queue.{IsRing, held}
use ri_mms_linux.Display.Gest.{show_message, scroll}
use ri_mms_linux.Prelude.Int.{◌-ℤ◌}
use ri_mms_linux.Display.{buffered, maxdisplaybuffer, write_display_buf, read_display_buf}
use ri_mms_linux.Display.Texts.{Taken, write_display_buf-Queued, read_display_buf-Taken}
use ri_mms_linux.Display.Gest.{Look, Display, gest_display}
use ri_mms_linux.Display.Gest.Scrolling.{IsScrolling, gest_display-IsScrolling}
use ri_mms_linux.Tests.Fixtures.{modem}
use ri_mms_linux.Command.{parser_command, parameters}
use ri_mms_linux.Command.Parameters.{separated, parser_command-separated}

abbrev empty : Ring
empty = record { cells = replicate maxdisplaybuffer 0; count = 0; inp = 0; out = 0 }

-- `OK`, its zero and one more character.
abbrev waiting : Ring
waiting = record { cells = 79 ∷ 75 ∷ 0 ∷ 65 ∷ replicate 1020 0; count = 4; inp = 4; out = 0 }

empty-IsRing : IsRing maxdisplaybuffer empty
empty-IsRing = record {
  sized = length-replicate {A = ℕ} maxdisplaybuffer 0;
  inp_in = omega arith;
  out_in = omega arith;
  count_in = omega arith;
  placed = inl refl;
}

waiting-IsRing : IsRing maxdisplaybuffer waiting
waiting-IsRing = record {
  sized = omega (arith, length-replicate {A = ℕ} 1020 0);
  inp_in = omega arith;
  out_in = omega arith;
  count_in = omega arith;
  placed = inl refl;
}

write_display_buf-Queued_example :
    (r' : Ring) × (write_display_buf false (79 ∷ 75 ∷ []) empty ≡ buffered 0 r')
    × IsRing maxdisplaybuffer r'
    × (held maxdisplaybuffer r' ≡ held maxdisplaybuffer empty ++ ((79 ∷ 75 ∷ []) ++ (0 ∷ [])))
write_display_buf-Queued_example =
    write_display_buf-Queued (79 ∷ 75 ∷ []) empty empty-IsRing (omega arith) (omega arith)

read_display_buf-Taken_example : Taken (79 ∷ 75 ∷ []) (65 ∷ []) (read_display_buf waiting)
read_display_buf-Taken_example =
    read_display_buf-Taken (79 ∷ 75 ∷ []) (65 ∷ []) waiting waiting-IsRing refl
      (λ e. absurd (omega arith), (λ e. absurd (omega arith), tt)) (omega arith)

-- A text of 18 characters whose first 16 are on the display.
abbrev text18 : List ℕ
text18 = codes "ALARM COLD STORE 1"

abbrev pub display : Display
display = record {
  queue = empty;
  panel = record {
    upper = replicate 17 0;
    lower = replicate 17 0;
    mem_upper = replicate 17 0;
    mem_lower = replicate 17 0;
  };
  displaynewmsg = true;
  timerdisplay = pos 8;
  timernewmsg = pos 5;
  timershift = pos 100;
  tmpbuffer = text18;
  len = 18;
  indexvis = 0;
  backlight = true;
  displaybusy = false;
  displaygest = false;
  overrun = false;
}

abbrev pub look : Look
look = record {
  second = pos 9;
  msec = pos 600;
  alim = true;
  modem = modem;
  signal_text = codes "12";
  time_text = codes "01/02 03:04:05";
}

gest_display-IsScrolling_example : IsScrolling (gest_display look display).1
unfolding gest_display show_message ◌-ℤ◌ scroll
gest_display-IsScrolling_example =
    gest_display-IsScrolling look display
      (record { counted = refl; short = omega arith; within = λ long. omega arith }) refl

-- `PA,A`
parser_command-separated_example :
    parser_command (separated (80 ∷ 65 ∷ []) ((65 ∷ []) ∷ []))
    ≡ parameters ((80 ∷ 65 ∷ []) ∷ (65 ∷ []) ∷ [])
parser_command-separated_example =
    parser_command-separated (80 ∷ 65 ∷ []) ((65 ∷ []) ∷ [])
      ((refl, refl, (refl, refl, tt)), omega arith, ((refl, refl, tt), omega arith, tt))
      (omega arith)

-- A database with all parameters, the period of which is refused.
abbrev settings : Settings
settings = record {
  period = pos 0;
  unit_name = [];
  host = [];
  login = [];
  password = [];
  directory = [];
  port = [];
  gw = 0;
  modem_port = [];
  modem_type = ModemType.usb;
  keyb_enable = false;
  net_port = pos 0;
  net_address = [];
}

load_config-IsUsable_example :
    IsUsable (load_config (λ key n. (some (48 ∷ []), suc n)) (λ text. pos 0) settings 0).0
load_config-IsUsable_example =
    load_config-IsUsable {W = ℕ} (λ key n. (some (48 ∷ []), suc n)) (λ text. pos 0) (48 ∷ [])
      settings 0 refl refl
