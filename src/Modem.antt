-- ===== src/Modem.antt =====
-- The state of sw/modem.c, `struct _modem` of sw/modem.h, with what a call does to the world: the
-- shell commands that it runs and the texts that it shows, the latest last.
-- A C string is the list of its characters; `char` flags are Booleans.
pub mod Reply
pub mod Remote
pub mod Gest
pub mod Exchange
use ri_mms_linux.Prelude.{ℕ, Bool, true, false, List, [], ◌∷◌, ◌++◌, if◌then◌else◌}
use ri_mms_linux.Prelude.Int.{ℤ}

-- MODEM_NOTPRES … MODEM_GOOFFLINE
pub data Status : Type 0 where
  notpres : Status
  notreg : Status
  offline : Status
  goonline : Status
  online : Status
  gooffline : Status

-- MODEMTYPE_USB, MODEMTYPE_TTY, MODEMTYPE_LAN
pub data ModemType : Type 0 where
  usb : ModemType
  tty : ModemType
  lan : ModemType

pub data Action : Type 0 where
  -- `system("pon")`, `system("poff")`, `system("./redir_ip.sh &")`
  pon : Action
  poff : Action
  redir_ip : Action
  -- `WriteDisplayBuf("ONLINE")`, `WriteDisplayBuf("OFFLINE")`
  show_online : Action
  show_offline : Action

pub record Modem : Type 0 where
  pub present : Bool
  pub type : ModemType
  pub registered : Bool
  pub status : Status
  pub desiredstatus : Bool
  pub timeronline : ℤ
  pub operatorname : List ℕ
  pub signal : ℕ
  pub timergest : ℤ
  pub timercheck : ℤ
  pub actions : List Action

abbrev pub act : Action → Modem → Modem
act a m = record m { actions = m.actions ++ (a ∷ []) }

abbrev pub is_online : Status → Bool
is_online online = true
is_online _ = false

-- `GetModemStatus`
unfoldable pub get_modem_status : Modem → Bool
get_modem_status m = is_online m.status

-- `SetModemStatus`
unfoldable pub set_modem_status : Bool → Modem → Modem
set_modem_status status m = if status then record m { desiredstatus = true } else m
