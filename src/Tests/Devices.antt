-- ===== src/Tests/Devices.antt =====
-- The sensor table, the conversion of its readings and the state machine's inputs at concrete values.
use ri_mms_linux.Prelude.{
  ℕ, zero, suc, ◌≡◌, arith, List, [], ◌∷◌, some, length, replicate, length-replicate,
}
use ri_mms_linux.Prelude.Int.{pos}
use ri_mms_linux.Device.{Device, blank, maxdevice, init_devices}
use ri_mms_linux.Device.Laws.{SmallPeriods, AllReady, init_devices_total}
use ri_mms_linux.Radio.Sth11.{steps}
use ri_mms_linux.Radio.Sth11.Bounds.{Fits, steps-Fits}

abbrev table : List Device
table = replicate maxdevice blank

SmallPeriods-replicate : (n : ℕ) → SmallPeriods (replicate n blank)
SmallPeriods-replicate zero = tt
SmallPeriods-replicate (suc n) = (omega arith, SmallPeriods-replicate n)

init_devices_total_example :
    (out : List Device) × (init_devices (λ id. 85 ∷ []) (pos 4000) (pos 2) table ≡ some (2, out))
    × (length out ≡ maxdevice)
    × AllReady (pos 4000) 2 out
init_devices_total_example =
    init_devices_total (λ id. 85 ∷ []) (pos 4000) 2 table (omega arith)
      (length-replicate maxdevice blank) (SmallPeriods-replicate maxdevice)

steps-Fits_example : Fits (steps (pos 6200) (pos 120))
steps-Fits_example =
    steps-Fits (pos 6200) (pos 120) (omega arith, omega arith) (omega arith, omega arith)
