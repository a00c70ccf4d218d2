-- ===== src/Config.antt =====
-- `LoadConfig` of sw/main.c: the parameters of the database and the globals that they set.
-- `LoadParamDb` is the argument `db`, over the state of the database: the text of a parameter, or
-- `none` if it returns non-zero (Db has it). `atoi` is the C library's, an `int`.
pub mod Limits
use ri_mms_linux.Prelude.{
  ℕ, Bool, true, false, List, [], ◌∷◌, Option, none, some, codes, same_text, if◌then◌else◌,
}
use ri_mms_linux.Prelude.Int.{ℤ, pos, signed16, pattern16, leb_ℤ}
use ri_mms_linux.Modem.{ModemType, usb, tty}

pub data Key : Type 0 where
  transferperiod unitid ftphost ftplogin ftppwd ftpdir ftpport : Key
  gwradioaddress modemport modemtype keyboard rimmsnetport rimmsnetadd : Key

pub record Settings : Type 0 where
  pub period : ℤ
  pub unit_name : List ℕ
  pub host : List ℕ
  pub login : List ℕ
  pub password : List ℕ
  pub directory : List ℕ
  pub port : List ℕ
  -- the bit pattern of `Gw`
  pub gw : ℕ
  pub modem_port : List ℕ
  pub modem_type : ModemType
  pub keyb_enable : Bool
  pub net_port : ℤ
  pub net_address : List ℕ

-- A step gives the globals, the state of the database and whether the function goes on; if not, it
-- returns -1.
infixl 20 ◌>>>=◌
abbrev pub ◌>>>=◌ {ℓ} :
    {W : Type ℓ} → Settings × W × Bool → (Settings → W → Settings × W × Bool) → Settings × W × Bool
(s, w, go) >>>= next = if go then next s w else (s, w, false)

module _ {W : Type 0} (db : Key → W → Option (List ℕ) × W) (atoi : List ℕ → ℤ) where
  abbrev pub load_text : Key → (List ℕ → Settings → Settings) → Settings → W → Settings × W × Bool
  load_text key store s w = elim (db key w).0 [
    | none ↦ (s, (db key w).1, false)
    | some text ↦ (store text s, (db key w).1, true)
  ]

  unfoldable pub load_period : Settings → W → Settings × W × Bool
  load_period s w = elim (db transferperiod w).0 [
    | none ↦ (s, (db transferperiod w).1, false)
    | some text ↦ (
      record s { period = if leb_ℤ (atoi text) (pos 0) then pos 3600 else atoi text },
      (db transferperiod w).1,
      true,
    )
  ]

  -- A missing address is only logged.
  unfoldable pub load_gw : Settings → W → Settings × W × Bool
  load_gw s w = elim (db gwradioaddress w).0 [
    | none ↦ (s, (db gwradioaddress w).1, true)
    | some text ↦
        let gw = pattern16 (atoi text) in
        (
          record s { gw = gw },
          (db gwradioaddress w).1,
          if leb_ℤ (signed16 gw) (pos 0) then false else true,
        )
  ]

  -- `"tty"` sets MODEMTYPE_TTY; `"usb"` and everything else MODEMTYPE_USB.
  unfoldable pub load_modem_type : Settings → W → Settings × W × Bool
  load_modem_type s w = elim (db modemtype w).0 [
    | none ↦ (s, (db modemtype w).1, false)
    | some text ↦ (
      record s { modem_type = if same_text text (codes "tty") then tty else usb },
      (db modemtype w).1,
      true,
    )
  ]

  -- `"enable"`
  unfoldable pub load_keyboard : Settings → W → Settings × W × Bool
  load_keyboard s w = elim (db keyboard w).0 [
    | none ↦ (s, (db keyboard w).1, false)
    | some text ↦
        (record s { keyb_enable = same_text text (codes "enable") }, (db keyboard w).1, true)
  ]

  unfoldable pub load_net_port : Settings → W → Settings × W × Bool
  load_net_port s w = elim (db rimmsnetport w).0 [
    | none ↦ (s, (db rimmsnetport w).1, false)
    | some text ↦ (
      record s { net_port = atoi text },
      (db rimmsnetport w).1,
      if leb_ℤ (atoi text) (pos 0) then false else true,
    )
  ]

  unfoldable pub load_config : Settings → W → Settings × W × Bool
  load_config s w =
      load_period s w
      >>>= load_text unitid (λ text t. record t { unit_name = text })
      >>>= load_text ftphost (λ text t. record t { host = text })
      >>>= load_text ftplogin (λ text t. record t { login = text })
      >>>= load_text ftppwd (λ text t. record t { password = text })
      >>>= load_text ftpdir (λ text t. record t { directory = text })
      >>>= load_text ftpport (λ text t. record t { port = text })
      >>>= load_gw
      >>>= load_text modemport (λ text t. record t { modem_port = text })
      >>>= load_modem_type
      >>>= load_keyboard
      >>>= load_net_port
      >>>= load_text rimmsnetadd (λ text t. record t { net_address = text })
