-- ===== src/Display/Write.antt =====
-- `WriteDisplay` of sw/display.c, which writes a text to the display at once, `InitKeyboard` and
-- `GetKeybStatus` of sw/keyboard.c, and the texts that `main` leaves on the display (sw/main.c).
pub mod Lines
pub mod Farewell
pub mod Busy
use ri_mms_linux.Prelude.{
  ℕ, ◌+◌, Bool, true, false, not, ◌&&◌, List, [], ◌∷◌, ◌++◌, length, ltb, ◌==◌, codes,
  if◌then◌else◌,
}
use ri_mms_linux.Prelude.Int.{ℤ, pos, negsuc}
use ri_mms_linux.Log.Tags.{store_text}
use ri_mms_linux.Display.Panel.{Instruction, Panel, write_to_display}
use ri_mms_linux.Display.Gest.{Display, clear_line}

-- `struct _keyboard` of sw/keyboard.h, as far as code reads or writes it.
pub record Keyboard : Type 0 where
  pub enable : Bool
  pub menulevel : ℕ
  pub menuindex : ℕ
  pub filtersw1 : ℕ
  pub filtersw2 : ℕ
  pub filtersw3 : ℕ
  pub filtersw4 : ℕ

-- `InitKeyboard` leaves `enable` alone.
abbrev pub init_keyboard : Keyboard → Keyboard
init_keyboard k = record k {
  menulevel = 0;
  menuindex = 0;
  filtersw1 = 0;
  filtersw2 = 0;
  filtersw3 = 0;
  filtersw4 = 0;
}

-- `GetKeybStatus`: whether a menu is open.
abbrev pub get_keyb_status : Keyboard → Bool
get_keyb_status k = ltb 0 k.menulevel

-- What a call finds: the keyboard, `GetAlim`, and whether another thread clears `displaybusy` while
-- it waits.
pub record Meets : Type 0 where
  pub keyboard : Keyboard
  pub alim : Bool
  pub freed : Bool

pub data Written : Type 0 where
  -- the result, and what is sent to the display
  returns : ℤ → List Instruction → Display → Written
  -- a write outside of `displayline1` or of `tmp[35]`
  overruns : Written

abbrev pub line_at : ℕ → Panel → List ℕ
line_at y p = if y == 0 then p.upper else p.lower

abbrev pub put_line : ℕ → List ℕ → Panel → Panel
put_line y line p = if y == 0 then record p { upper = line } else record p { lower = line }

-- With the display taken, on a line that is there: `displayline1[y]` is cleared before the length is
-- looked at, and a text that does not fit leaves `displaybusy` set.
unfoldable pub write_taken : Bool → ℕ → ℕ → List ℕ → Display → Written
write_taken alim x y text d =
    let cleared = clear_line (line_at y d.panel) in
    let panel = put_line y (store_text cleared x text) d.panel in
    let sent = write_to_display panel in
    let lit = if alim then true else d.backlight in
    if ltb 16 (length text + x)
    then returns (negsuc 0) [] (record d { panel = put_line y cleared d.panel; displaybusy = true })
    else if d.displaygest
    then returns (pos 0) [] (record d { panel = panel; backlight = lit; displaybusy = false })
    else returns (pos 0) sent.0 (record d { panel = sent.1; backlight = lit; displaybusy = false })

-- `WriteDisplay(x, y, str, …)`, where `text` is what `vsprintf` makes of `str` and the arguments.
unfoldable pub write_display : Meets → ℕ → ℕ → List ℕ → List ℕ → Display → Written
write_display meets x y str text d =
    if get_keyb_status meets.keyboard
    then returns (pos 1) [] d
    else if ltb 16 (length str)
    then returns (negsuc 0) [] d
    else if d.displaybusy && not meets.freed
    then returns (negsuc 0) [] d
    else if ltb 1 y
    then overruns
    else if ltb 34 (length text)
    then overruns
    else write_taken meets.alim x y text d

abbrev pub then_write : Written → (Display → Written) → Written
then_write (returns code sent d) next = elim (next d) [
  | returns code' sent' d' ↦ returns code' (sent ++ sent') d'
  | overruns ↦ overruns
]
then_write overruns next = overruns

-- The end of `main`: no result is looked at.
abbrev pub stopped_text : List ℕ
stopped_text = codes "Centralina ferma"

abbrev pub blank_text : List ℕ
blank_text = codes "                "

abbrev pub reboot_text : List ℕ
reboot_text = codes "Riavvio sistema "

abbrev pub shutdown_text : List ℕ
shutdown_text = codes "Arresto sistema "

unfoldable pub show_farewell : Meets → Bool → Bool → Display → Written
show_farewell meets flagrebootsystem flagpoweroffsystem d =
    let stopped =
      then_write (write_display meets 0 0 stopped_text stopped_text d)
        (write_display meets 0 1 blank_text blank_text) in
    if flagrebootsystem
    then then_write stopped (write_display meets 0 1 reboot_text reboot_text)
    else if flagpoweroffsystem
    then then_write stopped (write_display meets 0 1 shutdown_text shutdown_text)
    else stopped
