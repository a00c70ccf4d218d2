-- ===== src/Board/Switch.antt =====
-- What a press of the switch does, by its length.
use ri_mms_linux.Prelude.{
  ℕ, ◌+◌, ◌≡◌, refl, ◌∙◌, arith, Bool, true, false, not, ◌&&◌, ◌||◌, List, [], ◌∷◌, ◌++◌, length,
  leb, if◌then◌else◌,
}
use mathlib.Core.Path.{subst}
use ri_mms_linux.Prelude.Int.{ℤ}
use ri_mms_linux.Board.{
  Floats, Pins, Board, gest_switch, gest_chg, power_present, watch_charge, power_absent,
  stop_charge, filtered, gest_vin, gest_vbatt, gest_panel, io_turn, io_turns,
}

unfoldable pub AllPressed : List Pins → Type 0
AllPressed [] = Unit
AllPressed (pins ∷ inputs) = (pins.pressed ≡ true) × AllPressed inputs

module _ {F : Type 0} where
  -- The flags and the count of `b'`, after a press of `n` turns that began in `b`.
  pub record Answers (n : ℕ) (b b' : Board F) : Type 0 where
    pub poweroff : b'.flagpoweroffsystem ≡ (b.flagpoweroffsystem || leb 50 n)
    pub reboot : b'.flagrebootsystem ≡ (b.flagrebootsystem || (leb 30 n && not (leb 50 n)))
    pub running : b'.flagexit ≡ not (leb 30 n)
    pub count : b'.filtroswitch ≡ 0

  -- The count of the switch and the flags.
  pub record Kept (b b' : Board F) : Type 0 where
    pub filtroswitch : b'.filtroswitch ≡ b.filtroswitch
    pub flagexit : b'.flagexit ≡ b.flagexit
    pub flagreboot : b'.flagrebootsystem ≡ b.flagrebootsystem
    pub flagpoweroff : b'.flagpoweroffsystem ≡ b.flagpoweroffsystem

  if-Kept : (c : Bool) (b b1 b2 : Board F) → Kept b b1 → Kept b b2 → Kept b (if c then b1 else b2)
  if-Kept true b b1 b2 p q = p
  if-Kept false b b1 b2 p q = q

  trans-Kept : (b b' b'' : Board F) → Kept b b' → Kept b' b'' → Kept b b''
  trans-Kept b b' b'' p q = record {
    filtroswitch = q.filtroswitch ∙ p.filtroswitch;
    flagexit = q.flagexit ∙ p.flagexit;
    flagreboot = q.flagreboot ∙ p.flagreboot;
    flagpoweroff = q.flagpoweroff ∙ p.flagpoweroff;
  }

  gest_chg-Kept : (low : Bool) (b : Board F) → Kept b (gest_chg low b)
  unfolding gest_chg
  gest_chg-Kept low b = search (if-Kept) depth 6

  power_present-Kept : (b : Board F) → Kept b (power_present b)
  unfolding power_present
  power_present-Kept b = search (if-Kept) depth 6

  watch_charge-Kept : (b : Board F) → Kept b (watch_charge b)
  unfolding watch_charge
  watch_charge-Kept b = search (if-Kept) depth 6

  power_absent-Kept : (b : Board F) → Kept b (power_absent b)
  unfolding power_absent
  power_absent-Kept b = search (if-Kept) depth 6

  stop_charge-Kept : (b : Board F) → Kept b (stop_charge b)
  unfolding stop_charge
  stop_charge-Kept b = search (if-Kept) depth 6

  module _ (fl : Floats F) where
    gest_vbatt-Kept : (adc : ℤ) (b : Board F) → Kept b (gest_vbatt fl adc b)
    unfolding gest_vbatt
    gest_vbatt-Kept adc b = search (if-Kept) depth 8

    gest_vin-Kept : (adc : ℤ) (b : Board F) → Kept b (gest_vin fl adc b)
    unfolding gest_vin
    gest_vin-Kept adc b = by_tests (fl.above x 0) (fl.above x 420) (fl.below x 400)
      where
        x : F
        x = filtered fl 600 adc b.adcvin

        read : Board F
        read = record b { adcvin = x; adc_vin = x }

        kept : Kept b read
        kept = record {
          filtroswitch = refl;
          flagexit = refl;
          flagreboot = refl;
          flagpoweroff = refl;
        }

        by_tests :
            (valid present absent : Bool)
            → Kept b (
                if valid
                then (if present
                    then watch_charge (power_present read)
                    else if absent
                    then stop_charge (power_absent read)
                    else read)
                else read)
        by_tests true true absent = trans-Kept b read _ kept (
            trans-Kept read (power_present read) _ (power_present-Kept read)
              (watch_charge-Kept (power_present read)))
        by_tests true false true = trans-Kept b read _ kept (
            trans-Kept read (power_absent read) _ (power_absent-Kept read)
              (stop_charge-Kept (power_absent read)))
        by_tests true false false = kept
        by_tests false present absent = kept

    pub turn-Kept :
        (pins : Pins) (b : Board F) → Kept (gest_switch pins.pressed b) (io_turn fl pins b)
    unfolding io_turn gest_panel
    turn-Kept pins b =
        let kept =
          trans-Kept (gest_switch pins.pressed b) _ _ (gest_chg-Kept pins.chg_low _)
            (trans-Kept _ _ _ (gest_vin-Kept pins.vin _) (gest_vbatt-Kept pins.vbatt _)) in
        record {
          filtroswitch = kept.filtroswitch;
          flagexit = kept.flagexit;
          flagreboot = kept.flagreboot;
          flagpoweroff = kept.flagpoweroff;
        }

    pressed_turn :
        (pins : Pins) (b : Board F)
        → pins.pressed ≡ true
        → Kept (record b { filtroswitch = b.filtroswitch + 1 }) (io_turn fl pins b)
    unfolding gest_switch
    pressed_turn pins b e =
        subst (λ p. Kept (gest_switch p b) (io_turn fl pins b)) e (turn-Kept pins b)

    while_on : (c : Bool) (b1 b2 : Board F) → c ≡ true → (if c then b1 else b2) ≡ b1
    while_on true b1 b2 e = refl
    while_on false b1 b2 e = absurd (ground arith)

    -- What a press that goes on has come to.
    record Held (inputs rest : List Pins) (b : Board F) : Type 0 where
      reached : Board F
      same_end : io_turns fl (inputs ++ rest) b ≡ io_turns fl rest reached
      counted : reached.filtroswitch ≡ b.filtroswitch + length inputs
      running : reached.flagexit ≡ true
      reboot : reached.flagrebootsystem ≡ b.flagrebootsystem
      poweroff : reached.flagpoweroffsystem ≡ b.flagpoweroffsystem

    hold :
        (inputs rest : List Pins) (b : Board F)
        → AllPressed inputs
        → b.flagexit ≡ true
        → Held inputs rest b
    unfolding AllPressed io_turns
    hold [] rest b all on = record {
      reached = b;
      same_end = refl;
      counted = omega arith;
      running = on;
      reboot = refl;
      poweroff = refl;
    }
    hold (pins ∷ inputs) rest b (down, all) on =
        let turned = pressed_turn pins b down in
        let later = hold inputs rest (io_turn fl pins b) all (turned.flagexit ∙ on) in
        record {
          reached = later.reached;
          same_end = while_on b.flagexit _ _ on ∙ later.same_end;
          counted = omega (arith, later.counted, turned.filtroswitch);
          running = later.running;
          reboot = later.reboot ∙ turned.flagreboot;
          poweroff = later.poweroff ∙ turned.flagpoweroff;
        }

    release-Answers :
        (n : ℕ) (pins : Pins) (b c : Board F)
        → pins.pressed ≡ false
        → c.filtroswitch ≡ n
        → c.flagexit ≡ true
        → c.flagrebootsystem ≡ b.flagrebootsystem
        → c.flagpoweroffsystem ≡ b.flagpoweroffsystem
        → Answers n b (io_turn fl pins c)
    unfolding gest_switch
    release-Answers n pins b c up count on reboot poweroff =
        let turned : Kept (gest_switch false c) (io_turn fl pins c) =
          subst (λ p. Kept (gest_switch p c) (io_turn fl pins c)) up (turn-Kept pins c) in
        record {
          poweroff = ground (arith, turned.flagpoweroff, poweroff, count);
          reboot = ground (arith, turned.flagreboot, reboot, count);
          running = ground (arith, turned.flagexit, on, count);
          count = ground (arith, turned.filtroswitch);
        }

    -- While `thread_io` runs and with the switch up before, a press of any number of turns and its
    -- release, whatever the other inputs are: from 50 turns on the power is switched off, from 30 to
    -- 49 the system is booted again, in both cases the threads are told to end, and a shorter press
    -- does neither.
    pub io_turns_press :
        (inputs : List Pins) (last : Pins) (b : Board F)
        → AllPressed inputs
        → last.pressed ≡ false
        → b.flagexit ≡ true
        → b.filtroswitch ≡ 0
        → Answers (length inputs) b (io_turns fl (inputs ++ (last ∷ [])) b)
    unfolding io_turns
    io_turns_press inputs last b all up on start =
        let held = hold inputs (last ∷ []) b all on in
        let answers =
          release-Answers (length inputs) last b held.reached up (omega (arith, held.counted))
            held.running held.reboot held.poweroff in
        rw (held.same_end ∙ while_on (held.reached).flagexit _ _ held.running) answers
