-- ===== src/Display/Gest/Scrolling.antt =====
-- The text that scrolls over the display stays within what `ReadDisplayBuf` has read.
use ri_mms_linux.Prelude.{
  ℕ, ◌+◌, ◌-◌, ◌≤◌, ◌<◌, ◌≡◌, refl, arith, Bool, true, false, length, ltb, leb, ◌==◌, take, drop,
  ◌||◌, if◌then◌else◌,
}
use ri_mms_linux.Prelude.Int.{pattern32, ◌-ℤ◌, ◌+ℤ◌, pos}
use ri_mms_linux.Display.{read_chars, read_display_buf}
use ri_mms_linux.Display.Panel.{write_to_display}
use ri_mms_linux.Display.Gest.{
  Look, Display, show_idle, scroll, show_message, gest_display, copy_line, clear_line, write_time,
  write_status,
}

-- The number kept is that of the text, at most 63, and a text that scrolls is at most two steps
-- past its last window.
pub record IsScrolling (d : Display) : Type 0 where
  pub counted : d.len ≡ length d.tmpbuffer
  pub short : d.len ≤ 63
  pub within : 16 < d.len → d.indexvis + 14 ≤ d.len

no_overrun : (before : Bool) (n : ℕ) → (before || ltb 63 n) ≡ false → n ≤ 63
no_overrun true n e = absurd (ground (arith, e))
no_overrun false n e = ground (arith, e)

show_idle-IsScrolling :
    (look : Look) (d : Display)
    → IsScrolling d
    → (show_idle look d).overrun ≡ false
    → IsScrolling (show_idle look d)
unfolding show_idle read_display_buf
show_idle-IsScrolling look d v =
    by_tests ((d.queue).count == 0) (leb 1 (pattern32 (look.second -ℤ d.timerdisplay)))
  where
    idle : Bool → Bool → Display
    idle empty late =
        if empty
        then (if late
            then record d {
              timerdisplay = look.second;
              panel = write_time look (write_status look d.panel);
            }
            else d)
        else record d {
          queue = (read_chars 66 0 d.queue).1;
          overrun = d.overrun || ltb 63 (length (read_chars 66 0 d.queue).0);
          tmpbuffer = (read_chars 66 0 d.queue).0;
          len = length (read_chars 66 0 d.queue).0;
          displaynewmsg = true;
          indexvis = 0;
          timershift = look.msec +ℤ pos 400;
          timernewmsg = look.second;
          backlight = if look.alim then true else d.backlight;
        }

    by_tests :
        (empty late : Bool) → (idle empty late).overrun ≡ false → IsScrolling (idle empty late)
    by_tests true true e = record { counted = v.counted; short = v.short; within = v.within }
    by_tests true false e = v
    by_tests false late e = record {
      counted = refl;
      short = no_overrun d.overrun _ e;
      within = λ long. omega arith;
    }

-- One step on, or back to the start.
next-within :
    (len indexvis : ℕ)
    → 16 < len
    → (if ltb (len - 16 + 2) (indexvis + 1) then 0 else indexvis + 1) + 14 ≤ len
next-within len indexvis long = ground (arith, long)

scroll-IsScrolling :
    (look : Look) (d : Display) → 16 < d.len → IsScrolling d → IsScrolling (scroll look d)
unfolding scroll
scroll-IsScrolling look d long v = by_test (leb 400 (pattern32 (look.msec -ℤ d.timershift)))
  where
    by_test :
        (late : Bool)
        → IsScrolling (
            if late
            then record d {
              timershift = look.msec;
              panel = record d.panel {
                upper =
                    if ltb d.indexvis (d.len - 16 + 1)
                    then copy_line (take 16 (drop d.indexvis d.tmpbuffer)) (d.panel).upper
                    else clear_line (d.panel).upper;
              };
              indexvis = if ltb (d.len - 16 + 2) (d.indexvis + 1) then 0 else d.indexvis + 1;
            }
            else d)
    by_test true = record {
      counted = v.counted;
      short = v.short;
      within = λ h. next-within d.len d.indexvis long;
    }
    by_test false = v

show_message-IsScrolling :
    (look : Look) (d : Display) → IsScrolling d → IsScrolling (show_message look d)
unfolding show_message
show_message-IsScrolling look d v =
    by_tests (leb 1 (pattern32 (look.second -ℤ d.timerdisplay)))
      (leb 10 (pattern32 (look.second -ℤ d.timernewmsg))) (leb d.len 16) refl
  where
    timed_of : Bool → Display
    timed_of late =
        if late then record d { timerdisplay = look.second; panel = write_time look d.panel } else d

    by_tests :
        (late gone fits : Bool)
        → leb d.len 16 ≡ fits
        → IsScrolling (
            if gone
            then record (timed_of late) { displaynewmsg = false; backlight = false }
            else if fits
            then record (timed_of late) {
              panel = record (timed_of late).panel {
                upper = copy_line d.tmpbuffer (clear_line ((timed_of late).panel).upper);
              };
            }
            else scroll look (timed_of late))
    by_tests true true fits e = record { counted = v.counted; short = v.short; within = v.within }
    by_tests false true fits e = record { counted = v.counted; short = v.short; within = v.within }
    by_tests true false true e = record { counted = v.counted; short = v.short; within = v.within }
    by_tests false false true e = record { counted = v.counted; short = v.short; within = v.within }
    by_tests true false false e =
        scroll-IsScrolling look (timed_of true) (ground (arith, e))
          (record { counted = v.counted; short = v.short; within = v.within })
    by_tests false false false e = scroll-IsScrolling look d (ground (arith, e)) v

-- A call after which neither `tmpbuffer` nor the `tmp` of `WriteDisplayBuf` has ever been written
-- past its end, keeps the number of characters equal to the length of the text that was read, at
-- most 63, and the place the text is shown from no more than two past its last 16 characters.
pub gest_display-IsScrolling :
    (look : Look) (d : Display)
    → IsScrolling d
    → (gest_display look d).1.overrun ≡ false
    → IsScrolling (gest_display look d).1
unfolding gest_display
gest_display-IsScrolling look d v =
    by_message d.displaynewmsg (show_message-IsScrolling look d v) (show_idle-IsScrolling look d v)
  where
    sent_of : Display → Display
    sent_of shown = record shown { panel = (write_to_display shown.panel).1; displaygest = false }

    sent-IsScrolling : (shown : Display) → IsScrolling shown → IsScrolling (sent_of shown)
    sent-IsScrolling shown w = record { counted = w.counted; short = w.short; within = w.within }

    by_message :
        (message : Bool)
        → IsScrolling (show_message look d)
        → ((show_idle look d).overrun ≡ false → IsScrolling (show_idle look d))
        → (sent_of (if message then show_message look d else show_idle look d)).overrun ≡ false
        → IsScrolling (sent_of (if message then show_message look d else show_idle look d))
    by_message true w w' e = sent-IsScrolling (show_message look d) w
    by_message false w w' e = sent-IsScrolling (show_idle look d) (w' e)
