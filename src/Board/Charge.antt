-- ===== src/Board/Charge.antt =====
-- The battery is in charge only while the mains are present.
use ri_mms_linux.Prelude.{◌≤◌, ◌≡◌, arith, Bool, true, false, if◌then◌else◌}
use ri_mms_linux.Prelude.Int.{ℤ}
use ri_mms_linux.Display.Gest.{Look}
use ri_mms_linux.Display.Gest.Scrolling.{IsScrolling, gest_display-IsScrolling}
use ri_mms_linux.Board.{
  Floats, Pins, Board, gest_switch, gest_chg, power_present, watch_charge, power_absent,
  stop_charge, filtered, gest_vin, gest_vbatt, gest_panel, io_turn,
}

module _ {F : Type 0} where
  -- The charger counts to 300, the battery is in charge only with the mains present, and the display
  -- is well formed.
  pub record IsBoard (b : Board F) : Type 0 where
    pub counted : b.filtrocharge ≤ 300
    pub charging : b.in_charge ≡ true → b.power_in ≡ true
    pub shown : IsScrolling b.display

  if-IsScrolling :
      (c : Bool) (b b' : Board F)
      → IsScrolling b.display
      → IsScrolling b'.display
      → IsScrolling (if c then b else b').display
  if-IsScrolling true b b' p q = p
  if-IsScrolling false b b' p q = q

  gest_switch-shown :
      (pressed : Bool) (b : Board F)
      → IsScrolling b.display
      → IsScrolling (gest_switch pressed b).display
  unfolding gest_switch
  gest_switch-shown pressed b v = search (if-IsScrolling) depth 6

  gest_switch-IsBoard : (pressed : Bool) (b : Board F) → IsBoard b → IsBoard (gest_switch pressed b)
  unfolding gest_switch
  gest_switch-IsBoard pressed b v = record {
    counted = ground (arith, v.counted);
    charging = ground (arith, v.charging);
    shown = gest_switch-shown pressed b v.shown;
  }

  gest_chg-shown :
      (low : Bool) (b : Board F) → IsScrolling b.display → IsScrolling (gest_chg low b).display
  unfolding gest_chg
  gest_chg-shown low b v = search (if-IsScrolling) depth 6

  gest_chg-IsBoard : (low : Bool) (b : Board F) → IsBoard b → IsBoard (gest_chg low b)
  unfolding gest_chg
  gest_chg-IsBoard low b v = record {
    counted = ground (arith, v.counted);
    charging = ground (arith, v.charging);
    shown = gest_chg-shown low b v.shown;
  }

  power_present-shown :
      (b : Board F) → IsScrolling b.display → IsScrolling (power_present b).display
  unfolding power_present
  power_present-shown b v = search (if-IsScrolling) depth 6

  power_present-IsBoard : (b : Board F) → IsBoard b → IsBoard (power_present b)
  unfolding power_present
  power_present-IsBoard b v = record {
    counted = ground (arith, v.counted);
    charging = ground (arith, v.charging);
    shown = power_present-shown b v.shown;
  }

  power_present-power_in : (b : Board F) → (power_present b).power_in ≡ true
  unfolding power_present
  power_present-power_in b = ground arith

  watch_charge-shown : (b : Board F) → IsScrolling b.display → IsScrolling (watch_charge b).display
  unfolding watch_charge
  watch_charge-shown b v = search (if-IsScrolling) depth 6

  watch_charge-IsBoard : (b : Board F) → b.power_in ≡ true → IsBoard b → IsBoard (watch_charge b)
  unfolding watch_charge
  watch_charge-IsBoard b on v = record {
    counted = ground (arith, v.counted);
    charging = ground (arith, on, v.charging);
    shown = watch_charge-shown b v.shown;
  }

  power_absent-shown : (b : Board F) → IsScrolling b.display → IsScrolling (power_absent b).display
  unfolding power_absent
  power_absent-shown b v = search (if-IsScrolling) depth 6

  stop_charge-shown : (b : Board F) → IsScrolling b.display → IsScrolling (stop_charge b).display
  unfolding stop_charge
  stop_charge-shown b v = search (if-IsScrolling) depth 6

  -- Without the mains the charge is stopped.
  stop_charge-IsBoard : (b : Board F) → IsBoard b → IsBoard (stop_charge (power_absent b))
  unfolding stop_charge power_absent
  stop_charge-IsBoard b v = record {
    counted = ground (arith, v.counted);
    charging = ground (arith, v.charging);
    shown = stop_charge-shown (power_absent b) (power_absent-shown b v.shown);
  }

  if-IsBoard : (c : Bool) (b b' : Board F) → IsBoard b → IsBoard b' → IsBoard (if c then b else b')
  if-IsBoard true b b' p q = p
  if-IsBoard false b b' p q = q

  module _ (fl : Floats F) where
    gest_vin-IsBoard : (adc : ℤ) (b : Board F) → IsBoard b → IsBoard (gest_vin fl adc b)
    unfolding gest_vin
    gest_vin-IsBoard adc b v = by_tests (fl.above x 0) (fl.above x 420) (fl.below x 400)
      where
        x : F
        x = filtered fl 600 adc b.adcvin

        read : Board F
        read = record b { adcvin = x; adc_vin = x }

        kept : IsBoard read
        kept = record { counted = v.counted; charging = v.charging; shown = v.shown }

        by_tests :
            (valid present absent : Bool)
            → IsBoard (
                if valid
                then (if present
                    then watch_charge (power_present read)
                    else if absent
                    then stop_charge (power_absent read)
                    else read)
                else read)
        by_tests true true absent =
            watch_charge-IsBoard (power_present read) (power_present-power_in read)
              (power_present-IsBoard read kept)
        by_tests true false true = stop_charge-IsBoard read kept
        by_tests true false false = kept
        by_tests false present absent = kept

    gest_vbatt-shown :
        (adc : ℤ) (b : Board F) → IsScrolling b.display → IsScrolling (gest_vbatt fl adc b).display
    unfolding gest_vbatt
    gest_vbatt-shown adc b v = search (if-IsScrolling) depth 8

    gest_vbatt-IsBoard : (adc : ℤ) (b : Board F) → IsBoard b → IsBoard (gest_vbatt fl adc b)
    unfolding gest_vbatt
    gest_vbatt-IsBoard adc b v = record {
      counted = ground (arith, v.counted);
      charging = ground (arith, v.charging);
      shown = gest_vbatt-shown adc b v.shown;
    }

    gest_panel-IsBoard :
        (look : Look) (b : Board F)
        → IsBoard b
        → (gest_panel fl look b).display.overrun ≡ false
        → IsBoard (gest_panel fl look b)
    unfolding gest_panel
    gest_panel-IsBoard look b v within = record {
      counted = v.counted;
      charging = v.charging;
      shown = gest_display-IsScrolling (record look { alim = b.power_in }) b.display v.shown within;
    }

    -- A turn that does not write past the end of an array of the display's.
    pub io_turn-IsBoard :
        (pins : Pins) (b : Board F)
        → IsBoard b
        → (io_turn fl pins b).display.overrun ≡ false
        → IsBoard (io_turn fl pins b)
    unfolding io_turn
    io_turn-IsBoard pins b v = gest_panel-IsBoard pins.look _ (
        gest_vbatt-IsBoard pins.vbatt _ (
          gest_vin-IsBoard pins.vin _
            (gest_chg-IsBoard pins.chg_low _ (gest_switch-IsBoard pins.pressed b v))))
