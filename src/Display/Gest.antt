-- ===== src/Display/Gest.antt =====
-- `WriteStatus`, `WriteTime` and `GestDisplay` of sw/display.c: the status and the time, or a text of
-- the queue, which scrolls if it is longer than the display. A zero is a cell that was cleared. The
-- timers are unsigned, so a difference is taken modulo 2 ^ 32. Clocks, `strftime` and what `sprintf`
-- prints of a number are arguments; so is the state of the modem.
pub mod Scrolling
use ri_mms_linux.Prelude.{
  ℕ, suc, ◌+◌, ◌-◌, Bool, true, false, List, [], ◌∷◌, ◌++◌, length, take, drop, replicate, ltb, leb,
  ◌||◌, ◌==◌, codes, if◌then◌else◌,
}
use ri_mms_linux.Prelude.Int.{ℤ, ◌-ℤ◌, ◌+ℤ◌, pos, pattern32}
use ri_mms_linux.Log.Tags.{store_text}
use ri_mms_linux.Modem.{Modem, get_modem_status}
use ri_mms_linux.Ring.{Ring}
use ri_mms_linux.Display.{read_display_buf}
use ri_mms_linux.Display.Panel.{Instruction, Panel, write_to_display}

-- What a call sees.
pub record Look : Type 0 where
  -- `GetClockSecond` and `GetClockMsec`
  pub second : ℤ
  pub msec : ℤ
  -- `GetAlim`
  pub alim : Bool
  pub modem : Modem
  -- `"%02d"` of the signal, and the date and time as `strftime` prints them in at most 15 characters
  pub signal_text : List ℕ
  pub time_text : List ℕ

pub record Display : Type 0 where
  pub queue : Ring
  pub panel : Panel
  pub displaynewmsg : Bool
  pub timerdisplay : ℤ
  pub timernewmsg : ℤ
  pub timershift : ℤ
  -- the static locals
  pub tmpbuffer : List ℕ
  pub len : ℕ
  pub indexvis : ℕ
  -- what `Backlight` was last called with
  pub backlight : Bool
  pub displaybusy : Bool
  pub displaygest : Bool
  -- whether `tmpbuffer` or the `tmp` of `WriteDisplayBuf`, both of 64 characters, has been written
  -- past its end: C leaves undefined what follows
  pub overrun : Bool

-- `memset(&displayline1[y][0],'\0',16)`
abbrev pub clear_line : List ℕ → List ℕ
clear_line line = replicate 16 0 ++ drop 16 line

-- `memcpy` over the first cells.
abbrev pub copy_line : List ℕ → List ℕ → List ℕ
copy_line text line = text ++ drop (length text) line

unfoldable pub write_status : Look → Panel → Panel
write_status look p =
    let named = store_text (clear_line p.upper) 0 ((look.modem).operatorname ++ codes "-") in
    let signal = store_text named 4 look.signal_text in
    let status =
      store_text signal 7 (if get_modem_status look.modem then codes "ONL " else codes "OFFL") in
    record p { upper = store_text status 12 (if look.alim then codes "PWR" else codes "BAT") }

unfoldable pub write_time : Look → Panel → Panel
write_time look p = record p { lower = store_text (clear_line p.lower) 0 look.time_text }

-- With no message on the display.
unfoldable pub show_idle : Look → Display → Display
show_idle look d =
    let (text, queue) = read_display_buf d.queue in
    if (d.queue).count == 0
    then (if leb 1 (pattern32 (look.second -ℤ d.timerdisplay))
        then record d {
          timerdisplay = look.second;
          panel = write_time look (write_status look d.panel);
        }
        else d)
    else record d {
      queue = queue;
      tmpbuffer = text;
      overrun = d.overrun || ltb 63 (length text);
      len = length text;
      displaynewmsg = true;
      indexvis = 0;
      timershift = look.msec +ℤ pos 400;
      timernewmsg = look.second;
      backlight = if look.alim then true else d.backlight;
    }

-- A longer text moves by one character each 400 milliseconds, and leaves the line empty at its end.
unfoldable pub scroll : Look → Display → Display
scroll look d =
    let window = take 16 (drop d.indexvis d.tmpbuffer) in
    let line =
      if ltb d.indexvis (d.len - 16 + 1)
      then copy_line window (d.panel).upper
      else clear_line (d.panel).upper in
    let next = if ltb (d.len - 16 + 2) (d.indexvis + 1) then 0 else d.indexvis + 1 in
    if leb 400 (pattern32 (look.msec -ℤ d.timershift))
    then record d {
      timershift = look.msec;
      panel = record d.panel { upper = line };
      indexvis = next;
    }
    else d

-- With a message.
unfoldable pub show_message : Look → Display → Display
show_message look d =
    let timed =
      if leb 1 (pattern32 (look.second -ℤ d.timerdisplay))
      then record d { timerdisplay = look.second; panel = write_time look d.panel }
      else d in
    if leb 10 (pattern32 (look.second -ℤ d.timernewmsg))
    then record timed { displaynewmsg = false; backlight = false }
    else if leb d.len 16
    then record timed {
      panel = record timed.panel { upper = copy_line d.tmpbuffer (clear_line (timed.panel).upper) };
    }
    else scroll look timed

-- `displaygest` is set while the panel is sent.
unfoldable pub gest_display : Look → Display → List Instruction × Display
gest_display look d =
    let shown = if d.displaynewmsg then show_message look d else show_idle look d in
    let sent = write_to_display shown.panel in
    (sent.0, record shown { panel = sent.1; displaygest = false })
