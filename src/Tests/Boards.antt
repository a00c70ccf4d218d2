-- ===== src/Tests/Boards.antt =====
-- The switch and the charger at concrete inputs, with whole numbers for the voltages.
use ri_mms_linux.Prelude.{
  ℕ, suc, ◌+◌, ◌*◌, ◌/◌, zero, refl, Bool, true, false, List, [], ◌∷◌, ◌++◌, length, replicate, ltb,
  leb, codes,
}
use ri_mms_linux.Prelude.Int.{ℤ, pos, negsuc}
use ri_mms_linux.Board.{Floats, Pins, Board, io_turns}
use ri_mms_linux.Board.Switch.{AllPressed, Answers, io_turns_press}
use ri_mms_linux.Tests.Displays.{display, look}

abbrev of_reading : ℤ → ℕ
of_reading (pos n) = n
of_reading (negsuc n) = 0

abbrev pub whole : Floats ℕ
whole = record {
  of_int = of_reading;
  add = λ x y. x + y;
  times = λ x n. x * n;
  over = λ x n. x / n;
  above = λ x n. ltb n x;
  below = λ x n. ltb x n;
  at_most = λ x n. leb x n;
  charged_text = λ x. codes "BATTERIA CARICA";
  low_text = λ x. codes "BATTERIA SCARICA";
}

abbrev pub board : Board ℕ
board = record {
  filtroswitch = 0;
  filtrocharge = 0;
  adcvin = 400;
  adcvbatt = 370;
  adc_vin = 0;
  adc_vbatt = 0;
  power_in = false;
  in_charge = false;
  low_battery = false;
  flagexit = true;
  flagrebootsystem = false;
  flagpoweroffsystem = false;
  display = display;
}

-- The mains are there.
abbrev pub pins_of : Bool → Pins
pins_of pressed = record {
  pressed = pressed;
  chg_low = false;
  vin = pos 900;
  vbatt = pos 700;
  look = look;
}

abbrev presses : ℕ → List Pins
presses n = replicate n (pins_of true)

presses-AllPressed : (n : ℕ) → AllPressed (presses n)
unfolding AllPressed
presses-AllPressed zero = tt
presses-AllPressed (suc n) = (refl, presses-AllPressed n)

io_turns_press_example :
    Answers (length (presses 31)) board (io_turns whole (presses 31 ++ (pins_of false ∷ [])) board)
io_turns_press_example =
    io_turns_press whole (presses 31) (pins_of false) board (presses-AllPressed 31) refl refl refl
