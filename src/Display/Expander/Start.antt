-- ===== src/Display/Expander/Start.antt =====
-- The display after `lcdinit`.
use ri_mms_linux.Prelude.{
  ℕ, ◌≡◌, refl, arith, Bool, true, false, List, [], Option, none, some, replicate, length-replicate,
  inl, if◌then◌else◌,
}
use ri_mms_linux.Prelude.Int.{ℤ, pos, negsuc, ◌-ℤ◌}
use ri_mms_linux.Ring.Queue.{IsRing}
use ri_mms_linux.Display.{maxdisplaybuffer}
use ri_mms_linux.Display.Gest.{Display}
use ri_mms_linux.Display.Gest.Scrolling.{IsScrolling}
use ri_mms_linux.Display.Expander.{Bus, backlight, lcd_commands, lcdinit}

-- What a call that succeeds gives.
pub record Starts (d : Display) : Type 0 where
  pub queue : IsRing maxdisplaybuffer d.queue
  pub empty : (d.queue).count ≡ 0
  pub scrolling : IsScrolling d
  pub free : d.displaybusy ≡ false
  pub idle : d.displaynewmsg ≡ false

started-Starts :
    (d : Display) (time : ℤ)
    → d.len ≡ 0
    → d.tmpbuffer ≡ []
    → Starts (record d {
      queue = record { cells = replicate maxdisplaybuffer 0; count = 0; inp = 0; out = 0 };
      displaynewmsg = false;
      timerdisplay = time;
      displaybusy = false;
    })
started-Starts d time e e' = record {
  queue = record {
    sized = length-replicate {A = ℕ} maxdisplaybuffer 0;
    inp_in = omega arith;
    out_in = omega arith;
    count_in = omega arith;
    placed = inl refl;
  };
  empty = refl;
  scrolling = record {
    counted = rw e (rw e' refl);
    short = omega (arith, e);
    within = λ long. absurd (omega (arith, e, long));
  };
  free = refl;
  idle = refl;
}

-- `lcdinit` returns 0 only with an empty queue that is well formed, no message, no text that scrolls
-- and `displaybusy` clear, if the two static locals of `GestDisplay` are as the program starts.
pub lcdinit-Starts :
    (bus : Bus) (d : Display)
    → d.len ≡ 0
    → d.tmpbuffer ≡ []
    → (lcdinit bus d).0 ≡ pos 0
    → Starts (lcdinit bus d).2
unfolding lcdinit
lcdinit-Starts bus d e e' =
    by_tests bus.display_opens bus.expander_opens bus.init_writes bus.memory
      (backlight 0 bus.byte bus.light_writes).0 (dark_by (backlight 0 bus.byte bus.light_writes).1)
      (dark_len (backlight 0 bus.byte bus.light_writes).1)
      (dark_text (backlight 0 bus.byte bus.light_writes).1)
  where
    dark_by : Option ℕ → Display
    dark_by written = elim written [ none ↦ d | some byte ↦ record d { backlight = false } ]

    dark_len : (o : Option ℕ) → (dark_by o).len ≡ 0
    dark_len none = e
    dark_len (some byte) = e

    dark_text : (o : Option ℕ) → (dark_by o).tmpbuffer ≡ []
    dark_text none = e'
    dark_text (some byte) = e'

    outcome : Bool → Bool → Bool → Bool → ℤ → Display → ℤ × List ℕ × Display
    outcome opens expands writes memory lit dark =
        if opens
        then (if expands
            then (if writes
                then elim lit [
                  | negsuc n ↦ (negsuc 0, lcd_commands, dark)
                  | pos n ↦
                      if memory
                      then (
                        pos 0,
                        lcd_commands,
                        record dark {
                          queue = record {
                            cells = replicate maxdisplaybuffer 0;
                            count = 0;
                            inp = 0;
                            out = 0;
                          };
                          displaynewmsg = false;
                          timerdisplay = bus.time -ℤ pos 9;
                          displaybusy = false;
                        },
                      )
                      else (negsuc 0, lcd_commands, dark)
                ]
                else (negsuc 0, lcd_commands, d))
            else (negsuc 0, [], d))
        else (negsuc 0, [], d)

    by_tests :
        (opens expands writes memory : Bool) (lit : ℤ) (dark : Display)
        → dark.len ≡ 0
        → dark.tmpbuffer ≡ []
        → (outcome opens expands writes memory lit dark).0 ≡ pos 0
        → Starts (outcome opens expands writes memory lit dark).2
    by_tests true true true true (pos n) dark l t h = started-Starts dark (bus.time -ℤ pos 9) l t
    by_tests true true true false (pos n) dark l t h = absurd (ground (arith, h))
    by_tests true true true memory (negsuc n) dark l t h = absurd (ground (arith, h))
    by_tests true true false memory lit dark l t h = absurd (ground (arith, h))
    by_tests true false writes memory lit dark l t h = absurd (ground (arith, h))
    by_tests false expands writes memory lit dark l t h = absurd (ground (arith, h))
