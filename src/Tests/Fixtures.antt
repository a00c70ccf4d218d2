-- ===== src/Tests/Fixtures.antt =====
-- The states that the tests start from.
use ri_mms_linux.Prelude.{
  ℕ, refl, arith, true, false, [], ◌∷◌, none, some, replicate, length-replicate, inl,
}
use ri_mms_linux.Prelude.Int.{pos}
use ri_mms_linux.Ring.Queue.{IsRing}
use ri_mms_linux.Log.{Files}
use ri_mms_linux.Log.Stamp.{Tm, Calendar}
use ri_mms_linux.Device.{Device, blank}
use ri_mms_linux.Radio.State.{Radio, Moment}
use ri_mms_linux.Radio.Payload.{Stack, max_bufferdata}
use ri_mms_linux.Radio.Receiver.{maxbuffer}
use ri_mms_linux.Radio.Receiver.Switch.{IsReceiver}
use ri_mms_linux.Modem.{Modem, Status, ModemType}

abbrev pub noon : Tm
noon = record { sec = 56; minute = 34; hour = 12; mday = 15; mon = 5; year = 111 }

abbrev pub calendar : Calendar
calendar = record { gmtime = λ t. noon; mktime = λ tm. tm; offset_seconds = λ t. pos 7200 }

abbrev pub moment : Moment
moment = record { time = pos 1308141296; clock = pos 4000 }

abbrev pub stack : Stack
stack = record {
  timestamp = record { b0 = 0; b1 = 0; b2 = 0; b3 = 0 };
  sample = record { b0 = 0; b1 = 0; b2 = 0; b3 = 0 };
  period_low = 0;
  period_high = 0;
}

abbrev pub files : Files
files = record {
  sample = some (2 ∷ []);
  sample_ram = none;
  header = some (72 ∷ []);
  upload = none;
  writable = true;
  fwrite = λ bytes. bytes;
  ftp_uploading = false;
}

-- A cellar that is too warm.
abbrev pub cellar : Device
cellar = record blank {
  id = 7;
  add = 513;
  sampleperiod = 10;
  radioperiod = 60;
  min_temperature = pos 50;
  max_temperature = pos 150;
  temperature = pos 212;
}

abbrev pub attic : Device
attic = record blank { id = 8; add = 514; lastidradio = pos 257 }

abbrev pub radio : Radio
radio = record {
  protocolstate = 0;
  protocolchecksum = 0;
  protocolready = 0;
  serial = record { cells = replicate maxbuffer 0; count = 0; inp = 0; out = 0 };
  payload = record { cells = replicate max_bufferdata 0; count = 0; inp = 0; out = 0 };
  gw = 1;
  rp1 = 0;
  rp2 = 0;
  rp3 = 0;
  device = 0;
  temperature = pos 0;
  umidita = pos 0;
  batteria = pos 0;
  devices = cellar ∷ attic ∷ [];
  device_number = 2;
  device_index = 0;
  lasttransferperiod = pos 0;
  transferperiod = pos 3600;
  files = files;
  sent = [];
  shown = [];
}

-- The radio with the 32 bytes of a frame of measures, time stamp 257, in the payload buffer.
abbrev pub loaded : Radio
loaded = record radio {
  payload = record { cells = 1 ∷ 1 ∷ 1 ∷ 0 ∷ 0 ∷ replicate 75 0; count = 32; inp = 32; out = 0 };
}

pub serial-IsRing : IsRing maxbuffer radio.serial
serial-IsRing = record {
  sized = length-replicate {A = ℕ} maxbuffer 0;
  inp_in = omega arith;
  out_in = omega arith;
  count_in = omega arith;
  placed = inl refl;
}

pub radio-IsReceiver : IsReceiver radio
radio-IsReceiver = record {
  state_in = omega arith;
  checksum_in = omega arith;
  serial_ring = serial-IsRing;
  cells_sized = length-replicate {A = ℕ} max_bufferdata 0;
  counted = λ h. absurd (omega arith);
  written = λ h. absurd (omega arith);
  unread = λ h. absurd (omega arith);
}

abbrev pub modem : Modem
modem = record {
  present = true;
  type = ModemType.usb;
  registered = true;
  status = Status.goonline;
  desiredstatus = false;
  timeronline = pos 0;
  operatorname = [];
  signal = 0;
  timergest = pos 3998;
  timercheck = pos 0;
  actions = [];
}
