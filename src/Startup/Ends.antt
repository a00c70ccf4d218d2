-- ===== src/Startup/Ends.antt =====
-- What a part of `main` leaves, if the program goes on after it.
use ri_mms_linux.Prelude.{◌≡◌, refl, Bool, true, false, [], if◌then◌else◌}
use ri_mms_linux.Prelude.Int.{ℤ}
use ri_mms_linux.Radio.Receiver.Switch.{IsReceiver}
use ri_mms_linux.Display.Gest.Scrolling.{IsScrolling}
use ri_mms_linux.Command.Exec.Logged.{Logged}
use ri_mms_linux.Machine.{Machine}
use ri_mms_linux.Startup.{Booted, started, stops, faults, ◌then_boot◌}

module _ {S F : Type 0} where
  -- If the program goes on, it is in a state with the property.
  pub data Ends (P : Machine S F → Type 0) : Booted S F → Type 0 where
    goes : (m : Machine S F) → P m → Ends P (started m)
    halts : (code : ℤ) (m : Machine S F) → Ends P (stops code m)
    crashes : Ends P faults

  pub then-Ends :
      (P Q : Machine S F → Type 0) (x : Booted S F) (next : Machine S F → Booted S F)
      → Ends P x
      → ((m : Machine S F) → P m → Ends Q (next m))
      → Ends Q (x then_boot next)
  then-Ends P Q _ next (goes m p) step = step m p
  then-Ends P Q _ next (halts code m) step = halts code m
  then-Ends P Q _ next crashes step = crashes

  pub if-Ends :
      (P : Machine S F → Type 0) (c : Bool) (code : ℤ) (m m' : Machine S F)
      → (c ≡ true → P m)
      → Ends P (if c then started m else stops code m')
  if-Ends P true code m m' p = goes m (p refl)
  if-Ends P false code m m' p = halts code m'

  -- As the program begins: the static locals of `GestDisplay`, and sample files of whole records.
  pub record IsBeginning (m : Machine S F) : Type 0 where
    pub len : ((m.board).display).len ≡ 0
    pub text : ((m.board).display).tmpbuffer ≡ []
    pub logged : Logged m.gateway

  pub record Flagged (m : Machine S F) : Type 0 where
    pub logged : Logged m.gateway
    pub reboot : (m.gateway).flagrebootsystem ≡ false
    pub poweroff : (m.gateway).flagpoweroffsystem ≡ false
    pub charging : (m.board).in_charge ≡ false

  pub record Shown (m : Machine S F) : Type 0 where
    pub flagged : Flagged m
    pub scrolling : IsScrolling (m.board).display

  pub record Opened (m : Machine S F) : Type 0 where
    pub shown : Shown m
    pub receiver : IsReceiver (m.gateway).radio
