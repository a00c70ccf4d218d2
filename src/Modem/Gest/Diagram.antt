-- ===== src/Modem/Gest/Diagram.antt =====
-- The diagram of the modem's state machine.
use ri_mms_linux.Prelude.{ℕ, ◌≡◌, refl, ap, sym, ◌∙◌, arith, Bool, true, false, List}
use ri_mms_linux.Modem.{
  Modem, Status, notpres, notreg, offline, goonline, online, gooffline, ModemType, usb, tty, lan,
}
use ri_mms_linux.Modem.Gest.{
  Seen, ask_modem, usb_connect, usb_watch, usb_search, usb_step, lan_connect, lan_step, gest_type,
  gest_modem,
}
use ri_mms_linux.Modem.Gest.Kept.{ask_modem-status}

-- Where one step may lead, by the type of the modem.
abbrev pub may_follow : ModemType → Status → Status → Bool
may_follow usb notpres notpres = true
may_follow usb notpres notreg = true
may_follow usb notreg notreg = true
may_follow usb notreg notpres = true
may_follow usb notreg goonline = true
may_follow usb offline offline = true
may_follow usb offline notpres = true
may_follow usb offline goonline = true
may_follow usb goonline goonline = true
may_follow usb goonline online = true
may_follow usb goonline notreg = true
may_follow usb online online = true
may_follow usb online goonline = true
may_follow usb online notreg = true
may_follow usb gooffline goonline = true
may_follow tty notpres notpres = true
may_follow tty notreg notreg = true
may_follow tty offline offline = true
may_follow tty goonline goonline = true
may_follow tty online online = true
may_follow tty gooffline gooffline = true
may_follow lan gooffline goonline = true
may_follow lan gooffline s = false
may_follow lan s online = true
may_follow t s s' = false

usb_step-may_follow :
    (seen : Seen) (s : Status) (m : Modem)
    → m.status ≡ s
    → may_follow usb s (usb_step seen s m).status ≡ true
unfolding usb_step usb_connect usb_watch usb_search
usb_step-may_follow seen notpres m e = ground arith
usb_step-may_follow seen notreg m e = ground arith
usb_step-may_follow seen offline m e = ground arith
usb_step-may_follow seen goonline m e = ground arith
usb_step-may_follow seen online m e = ground arith
usb_step-may_follow seen gooffline m e = refl

lan_step-may_follow :
    (seen : Seen) (s : Status) (m : Modem)
    → m.status ≡ s
    → may_follow lan s (lan_step seen s m).status ≡ true
unfolding lan_step lan_connect
lan_step-may_follow seen online m e = ground arith
lan_step-may_follow seen s m e = refl

-- Every step of `GestModem` follows an arrow of the diagram `may_follow`: a USB modem is found, is
-- registered and gets online one step at a time, MODEM_GOOFFLINE is never entered, and nothing moves
-- a TTY modem.
pub gest_modem-may_follow :
    (atoi : List ℕ → ℕ) (seen : Seen) (m : Modem)
    → may_follow m.type m.status (gest_modem atoi seen m).status ≡ true
unfolding gest_modem gest_type
gest_modem-may_follow atoi seen m = by_type m.type
  where
    asked : Modem
    asked = ask_modem atoi seen m

    same : asked.status ≡ m.status
    same = ask_modem-status atoi seen m

    unmoved : (s : Status) → may_follow tty s s ≡ true
    unmoved notpres = refl
    unmoved s = refl

    by_type : (t : ModemType) → may_follow t m.status (gest_type atoi seen t m).status ≡ true
    by_type usb =
        ap (λ s. may_follow usb s (usb_step seen asked.status asked).status) (sym same)
        ∙ usb_step-may_follow seen asked.status asked refl
    by_type tty = unmoved m.status
    by_type lan = lan_step-may_follow seen m.status m refl
