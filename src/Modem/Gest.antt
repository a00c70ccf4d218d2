-- ===== src/Modem/Gest.antt =====
-- `GestModem` of sw/modem.c, one step of the modem's state machine.
pub mod Kept
pub mod Diagram
pub mod Registered
use ri_mms_linux.Prelude.{ℕ, Bool, true, false, List, [], ◌∷◌, Option, not, if◌then◌else◌}
use ri_mms_linux.Prelude.Int.{ℤ, pos, ◌-ℤ◌, leb_ℤ}
use ri_mms_linux.Modem.{
  Modem, Status, notpres, notreg, offline, goonline, online, gooffline, ModemType, usb, tty, lan,
  poff, redir_ip, show_online, show_offline, act,
}
use ri_mms_linux.Modem.Reply.{modem_signal, modem_operator}
use ri_mms_linux.Modem.Remote.{remote_connection}

-- What one call sees: the clock, the replies to `AT+CSQ` and `AT+COPS?`, the polls of the line.
pub record Seen : Type 0 where
  pub now : ℤ
  pub csq : Option (List ℕ)
  pub cops : Option (List ℕ)
  pub up : ℕ → Bool

-- `GetClockSecond() - timer >= n`
abbrev pub elapsed : ℤ → ℤ → ℤ → Bool
elapsed now timer n = leb_ℤ n (now -ℤ timer)

abbrev pub is_notpres : Status → Bool
is_notpres notpres = true
is_notpres _ = false

-- The questions to the modem, at most every five seconds.
unfoldable pub ask_modem : (List ℕ → ℕ) → Seen → Modem → Modem
ask_modem atoi seen m =
    if elapsed seen.now m.timergest (pos 5)
    then (let asked = record m { timergest = seen.now } in
        if is_notpres m.status
        then asked
        else modem_operator seen.cops (modem_signal atoi seen.csq asked))
    else m

-- The cases of the switch for MODEMTYPE_USB.
unfoldable pub usb_connect : Seen → Modem → Modem
usb_connect seen m =
    if m.registered
    then (let (dialed, connected) = remote_connection true seen.up m in
        if connected
        then act redir_ip (
            act show_online (record dialed {
              desiredstatus = false;
              status = online;
              timeronline = seen.now;
              timercheck = seen.now;
            }))
        else record dialed { status = goonline })
    else record m { status = notreg }

unfoldable pub usb_watch : Seen → Modem → Modem
usb_watch seen m =
    if m.registered
    then (if elapsed seen.now m.timercheck (pos 3)
        then (let checked = record m { timercheck = seen.now } in
            if seen.up 0
            then (if elapsed seen.now m.timeronline (pos 90)
                then act redir_ip (record checked { timeronline = seen.now })
                else checked)
            else record (act poff (act show_offline checked)) { status = goonline })
        else m)
    else record (act poff m) { status = notreg }

unfoldable pub usb_search : Modem → Modem
usb_search m =
    if m.present
    then (if m.registered then record m { status = goonline } else m)
    else record m { status = notpres }

unfoldable pub usb_step : Seen → Status → Modem → Modem
unfolding usb_connect usb_watch usb_search
usb_step seen notpres m = if m.present then record m { status = notreg } else m
usb_step seen notreg m = usb_search m
usb_step seen offline m = usb_search m
usb_step seen goonline m = usb_connect seen m
usb_step seen online m = usb_watch seen m
usb_step seen gooffline m = record m { status = goonline }

-- `"LAN"`
abbrev pub lan_name : List ℕ
lan_name = 76 ∷ 65 ∷ 78 ∷ []

unfoldable pub lan_connect : Seen → Modem → Modem
lan_connect seen m = record (act redir_ip (act show_online (record m { status = online }))) {
  timeronline = seen.now;
  operatorname = lan_name;
  signal = 0;
}

-- The cases of the switch for MODEMTYPE_LAN.
unfoldable pub lan_step : Seen → Status → Modem → Modem
unfolding lan_connect
lan_step seen notpres m = lan_connect seen m
lan_step seen notreg m = lan_connect seen m
lan_step seen offline m = lan_connect seen m
lan_step seen goonline m = lan_connect seen m
lan_step seen online m =
    if elapsed seen.now m.timeronline (pos 90)
    then act redir_ip (record m { timeronline = seen.now })
    else m
lan_step seen gooffline m = record m { status = goonline }

-- The `if` on the type.
unfoldable pub gest_type : (List ℕ → ℕ) → Seen → ModemType → Modem → Modem
gest_type atoi seen usb m = let asked = ask_modem atoi seen m in usb_step seen asked.status asked
gest_type atoi seen tty m = m
gest_type atoi seen lan m = lan_step seen m.status m

unfoldable pub gest_modem : (List ℕ → ℕ) → Seen → Modem → Modem
gest_modem atoi seen m = gest_type atoi seen m.type m
