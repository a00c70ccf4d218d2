-- ===== src/Radio/State.antt =====
-- The globals of sw/protocolrimms.c, with the files and the upload timer of sw/rimms.c that its
-- functions write to. A WORD_D is its 16-bit pattern.
use ri_mms_linux.Prelude.{ℕ, ◌+◌, ◌*◌, ◌/◌, ◌%◌, List}
use ri_mms_linux.Prelude.{get_or, set}
use ri_mms_linux.Prelude.Int.{ℤ, ◌+ℤ◌, ◌-ℤ◌}
use ri_mms_linux.Ring.{Ring}
use ri_mms_linux.Device.{Device, blank}
use ri_mms_linux.Log.{Files}

-- The two texts that `Parser` shows, with the index or the address that they name.
pub data Notice : Type 0 where
  received : ℕ → Notice
  unknown : ℕ → Notice

pub record Radio : Type 0 where
  pub protocolstate : ℕ
  pub protocolchecksum : ℕ
  pub protocolready : ℕ
  -- buffer_serial, buffer_count, buffer_in, buffer_out
  pub serial : Ring
  -- bufferdata, bufferdatacount, bufferdatain, bufferdataout
  pub payload : Ring
  pub gw : ℕ
  pub rp1 : ℕ
  pub rp2 : ℕ
  pub rp3 : ℕ
  pub device : ℕ
  pub temperature : ℤ
  pub umidita : ℤ
  pub batteria : ℤ
  pub devices : List Device
  pub device_number : ℕ
  pub device_index : ℕ
  -- lasttransferperiod and transferperiod of rimms.c
  pub lasttransferperiod : ℤ
  pub transferperiod : ℤ
  pub files : Files
  -- the frames written to the serial port, the latest last
  pub sent : List (List ℕ)
  -- the texts handed to `WriteDisplayBuf`, the latest last
  pub shown : List Notice

-- The two clocks: `time(NULL)` and `GetClockSecond()`. One call of a handler sees one moment.
pub record Moment : Type 0 where
  pub time : ℤ
  pub clock : ℤ

-- `w.b[0] = x` and `w.b[1] = x`.
abbrev pub set_low : ℕ → ℕ → ℕ
set_low w x = w / 256 * 256 + x

abbrev pub set_high : ℕ → ℕ → ℕ
set_high w x = w % 256 + x * 256

-- `Devices[i]`, and an assignment to it.
abbrev pub device_at : Radio → ℕ → Device
device_at r i = get_or r.devices i blank

abbrev pub store_device : ℕ → Device → Radio → Radio
store_device i d r = record r { devices = set r.devices i d }

-- `ForceUpload` of rimms.c.
unfoldable pub force_upload : Moment → ℤ → Radio → Radio
force_upload m sec r = record r { lasttransferperiod = m.clock -ℤ r.transferperiod +ℤ sec }
