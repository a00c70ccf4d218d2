-- ===== src/Board.antt =====
-- `thread_io` of sw/main.c: the switch, the charger's pin and the two voltages, each turn of its loop
-- with the display behind them. The pins and the converters, and the arithmetic of `float`, are
-- arguments; what the LEDs are told is left out.
pub mod Charge
pub mod Switch
use ri_mms_linux.Prelude.{
  ℕ, ◌+◌, ◌-◌, Bool, true, false, List, [], ◌∷◌, ltb, leb, ◌||◌, codes, if◌then◌else◌,
}
use ri_mms_linux.Prelude.Int.{ℤ, pos}
use ri_mms_linux.Display.{write_display_buf, queue_after, is_overrun}
use ri_mms_linux.Display.Gest.{Look, Display, gest_display}

-- What the code uses of `float`.
pub record Floats (F : Type 0) : Type 0 where
  pub of_int : ℤ → F
  pub add : F → F → F
  -- by a constant
  pub times : F → ℕ → F
  pub over : F → ℕ → F
  pub above : F → ℕ → Bool
  pub below : F → ℕ → Bool
  pub at_most : F → ℕ → Bool
  -- `"BATTERIA CARICA %05.2fV"` and `"BATTERIA SCARICA %05.2f"` of a hundredth of it
  pub charged_text : F → List ℕ
  pub low_text : F → List ℕ

-- What a turn reads: whether a switch is pressed, whether the charger's pin is low, and `ADC_Read`.
pub record Pins : Type 0 where
  pub pressed : Bool
  pub chg_low : Bool
  pub vin : ℤ
  pub vbatt : ℤ
  pub look : Look

-- The locals of the thread, and of `data` what it writes.
pub record Board (F : Type 0) : Type 0 where
  pub filtroswitch : ℕ
  pub filtrocharge : ℕ
  pub adcvin : F
  pub adcvbatt : F
  pub adc_vin : F
  pub adc_vbatt : F
  pub power_in : Bool
  pub in_charge : Bool
  pub low_battery : Bool
  pub flagexit : Bool
  pub flagrebootsystem : Bool
  pub flagpoweroffsystem : Bool
  pub display : Display

module _ {F : Type 0} where
  -- `WriteDisplayBuf` while no other thread is in it.
  abbrev pub say : List ℕ → Board F → Board F
  say text b = record b {
    display = record b.display {
      queue = queue_after (b.display).queue (write_display_buf false text (b.display).queue);
      overrun = (b.display).overrun || is_overrun (write_display_buf false text (b.display).queue);
    };
  }

  -- A switch acts when it is let go, by how many turns it was pressed.
  unfoldable pub gest_switch : Bool → Board F → Board F
  gest_switch pressed b =
      let released = record b { filtroswitch = 0 } in
      if pressed
      then record b { filtroswitch = b.filtroswitch + 1 }
      else if leb 50 b.filtroswitch
      then record released { flagpoweroffsystem = true; flagexit = false }
      else if leb 30 b.filtroswitch
      then record released { flagrebootsystem = true; flagexit = false }
      else released

  unfoldable pub gest_chg : Bool → Board F → Board F
  gest_chg low b =
      if low
      then (if ltb b.filtrocharge 300 then record b { filtrocharge = b.filtrocharge + 1 } else b)
      else (if ltb 0 b.filtrocharge then record b { filtrocharge = b.filtrocharge - 1 } else b)

  -- Over 420.
  unfoldable pub power_present : Board F → Board F
  power_present b =
      if b.power_in then b else say (codes "Rete presente") (record b { power_in = true })

  unfoldable pub watch_charge : Board F → Board F
  watch_charge b =
      if leb 300 b.filtrocharge
      then (if b.in_charge
          then say (codes "Carica terminata") (record b { in_charge = false })
          else b)
      else if leb b.filtrocharge 0
      then (if b.in_charge then b else say (codes "In carica") (record b { in_charge = true }))
      else b

  -- Under 400.
  unfoldable pub power_absent : Board F → Board F
  power_absent b =
      if b.power_in
      then say (codes "Rete assente")
          (record b { power_in = false; display = record b.display { backlight = false } })
      else b

  unfoldable pub stop_charge : Board F → Board F
  stop_charge b =
      if b.in_charge then say (codes "Carica arrestata") (record b { in_charge = false }) else b

  module _ (fl : Floats F) where
    -- The mean of the last value and a reading of the converter, scaled by `factor / 1024`.
    abbrev pub filtered : ℕ → ℤ → F → F
    filtered factor adc old =
        fl.over (fl.add old (fl.over (fl.times (fl.of_int adc) factor) 1024)) 2

    unfoldable pub gest_vin : ℤ → Board F → Board F
    gest_vin adc b =
        let v = filtered 600 adc b.adcvin in
        let read = record b { adcvin = v; adc_vin = v } in
        if fl.above v 0
        then (if fl.above v 420
            then watch_charge (power_present read)
            else if fl.below v 400
            then stop_charge (power_absent read)
            else read)
        else read

    unfoldable pub gest_vbatt : ℤ → Board F → Board F
    gest_vbatt adc b =
        let v = filtered 550 adc b.adcvbatt in
        let read = record b { adcvbatt = v; adc_vbatt = v } in
        if fl.above v 0
        then (if fl.above v 380
            then (if b.low_battery
                then say (fl.charged_text v) (record read { low_battery = false })
                else read)
            else if fl.at_most v 325
            then (if b.low_battery
                then read
                else say (fl.low_text v) (record read { low_battery = true }))
            else read)
        else read

    -- `GestDisplay`, to which `GetAlim` gives `PowerIn`.
    unfoldable pub gest_panel : Look → Board F → Board F
    gest_panel look b = record b {
      display = (gest_display (record look { alim = b.power_in }) b.display).1;
    }

    -- What `thread_io` does before its loop, with the text of its version.
    unfoldable pub start_io : List ℕ → Board F → Board F
    start_io version b = say version (record b {
      filtroswitch = 0;
      filtrocharge = 0;
      adcvin = fl.of_int (pos 400);
      adcvbatt = fl.of_int (pos 370);
    })

    -- A turn of the loop.
    unfoldable pub io_turn : Pins → Board F → Board F
    io_turn pins b = gest_panel pins.look (
        gest_vbatt pins.vbatt
          (gest_vin pins.vin (gest_chg pins.chg_low (gest_switch pins.pressed b))))

    -- `while(data->flagexit)`, for as long as there is something to read.
    unfoldable pub io_turns : List Pins → Board F → Board F
    io_turns [] b = b
    io_turns (pins ∷ rest) b =
        let after = io_turns rest (io_turn pins b) in if b.flagexit then after else b
