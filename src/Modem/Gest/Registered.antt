-- ===== src/Modem/Gest/Registered.antt =====
-- When the modem is online, and how fast it gets there.
use ri_mms_linux.Prelude.{ℕ, ◌≡◌, refl, ap, sym, ◌∙◌, arith, true, List}
use ri_mms_linux.Modem.{
  Modem, Status, notpres, notreg, offline, goonline, online, gooffline, usb, lan, is_online,
  get_modem_status,
}
use ri_mms_linux.Modem.Gest.{
  Seen, ask_modem, usb_connect, usb_watch, usb_search, usb_step, lan_connect, lan_step, gest_type,
  gest_modem,
}
use ri_mms_linux.Modem.Gest.Kept.{remote_connection-registered}

usb_step-registered :
    (seen : Seen) (s : Status) (m : Modem)
    → m.status ≡ s
    → is_online (usb_step seen s m).status ≡ true
    → (usb_step seen s m).registered ≡ true
unfolding usb_step usb_connect usb_watch usb_search
usb_step-registered seen notpres m e h = ground arith
usb_step-registered seen notreg m e h = ground arith
usb_step-registered seen offline m e h = ground arith
usb_step-registered seen goonline m e h = ground (arith, remote_connection-registered seen.up m)
usb_step-registered seen online m e h = ground arith
usb_step-registered seen gooffline m e h = ground arith

-- After a step of a USB modem that `GetModemStatus` reports as online, the modem is registered.
gest_modem-registered :
    (atoi : List ℕ → ℕ) (seen : Seen) (m : Modem)
    → m.type ≡ usb
    → get_modem_status (gest_modem atoi seen m) ≡ true
    → (gest_modem atoi seen m).registered ≡ true
unfolding gest_modem gest_type get_modem_status
gest_modem-registered atoi seen m t h =
    ap (λ k. (gest_type atoi seen k m).registered) t
    ∙ usb_step-registered seen asked.status asked refl
        (ap (λ k. is_online (gest_type atoi seen k m).status) (sym t) ∙ h)
  where
    asked : Modem
    asked = ask_modem atoi seen m

lan_step-type : (seen : Seen) (s : Status) (m : Modem) → (lan_step seen s m).type ≡ m.type
unfolding lan_step lan_connect
lan_step-type seen online m = ground arith
lan_step-type seen s m = refl

lan_stays : (seen : Seen) (m : Modem) → m.status ≡ online → (lan_step seen online m).status ≡ online
unfolding lan_step
lan_stays seen m e = ground arith

lan_step_stays :
    (seen : Seen) (m : Modem)
    → m.status ≡ online
    → is_online (lan_step seen m.status m).status ≡ true
lan_step_stays seen m e =
    ap (λ s. is_online (lan_step seen s m).status) e ∙ ap is_online (lan_stays seen m e)

lan_step_online :
    (first second : Seen) (s : Status) (m : Modem)
    → m.status ≡ s
    → is_online (lan_step second (lan_step first s m).status (lan_step first s m)).status ≡ true
unfolding lan_step lan_connect
lan_step_online first second online m e =
    lan_step_stays second (lan_step first online m) (lan_stays first m e)
lan_step_online first second gooffline m e = refl
lan_step_online first second s m e = lan_step_stays second (lan_connect first m) refl

-- On a LAN, whatever state the unit is in, two steps later it is online.
pub gest_modem_lan :
    (atoi : List ℕ → ℕ) (first second : Seen) (m : Modem)
    → m.type ≡ lan
    → get_modem_status (gest_modem atoi second (gest_modem atoi first m)) ≡ true
unfolding gest_modem gest_type get_modem_status
gest_modem_lan atoi first second m t =
    ap
      (λ k.
        is_online
          (gest_type atoi second (gest_type atoi first k m).type (gest_type atoi first k m)).status)
      t
    ∙ ap (λ k. is_online (gest_type atoi second k (lan_step first m.status m)).status)
        (lan_step-type first m.status m ∙ t)
    ∙ lan_step_online first second m.status m refl
