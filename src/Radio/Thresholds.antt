-- ===== src/Radio/Thresholds.antt =====
-- `CheckSensorThresholds` of sw/protocolrimms.c: the alarms on temperature, humidity and battery of
-- the sensor at an index of the table. An alarm is recorded and the upload is brought forward when
-- the alarm flag changes, not while it stays.
pub mod Outcomes
pub mod Sections
pub mod Laws
use ri_mms_linux.Prelude.{ℕ, Bool, ◌||◌, if◌then◌else◌, ◌==◌}
use ri_mms_linux.Prelude.Int.{ℤ, pos, signed16, ltb_ℤ, ◌==ℤ◌}
use ri_mms_linux.Device.{Device}
use ri_mms_linux.Log.Stamp.{Calendar, tag_sor}
use ri_mms_linux.Log.Tags.{
  tag_threshold_overflow_alert, tag_measure_batt, tag_measure_temp, tag_measure_humi, overflow_up,
  overflow_dwn, log, log_option,
}
use ri_mms_linux.Radio.State.{Radio, Moment, device_at, store_device, force_upload}

-- What one of the three sections does: nothing, reset the flag, or raise the flag to 1 or to 2.
pub data Outcome : Type 0 where
  unchanged cleared low high : Outcome

-- The tests that the three sections share, on the limits, the value and the flag.
unfoldable pub judge : ℤ → ℤ → ℤ → ℕ → Outcome
judge lowest highest value flag =
    if lowest ==ℤ pos 0 || highest ==ℤ pos 0
    then unchanged
    else if ltb_ℤ value lowest
    then (if flag == 1 then unchanged else low)
    else if ltb_ℤ highest value
    then (if flag == 2 then unchanged else high)
    else cleared

-- `Tag_SOR(0); Tag_THRESHOLD_OVERFLOW_ALERT(id, measure, ud); ForceUpload(5);`
unfoldable pub alert : Moment → Calendar → ℤ → ℕ → ℕ → Radio → Radio
alert m cal id measure ud r =
    let stamped = log (tag_sor cal m.time (pos 0)) r.files in
    force_upload m (pos 5)
      (record r { files = log_option (tag_threshold_overflow_alert id measure ud) stamped })

module _ (m : Moment) (cal : Calendar) (i : ℕ) where
  unfoldable pub check_temperature : Radio → Radio
  unfolding alert
  check_temperature r =
      let d = device_at r i in
      let id = signed16 d.id in
      elim (judge d.min_temperature d.max_temperature d.temperature d.flagalalarmtemp) [
        | unchanged ↦ r
        | cleared ↦ store_device i (record d { flagalalarmtemp = 0 }) r
        | low ↦
            alert m cal id tag_measure_temp overflow_dwn
              (store_device i (record d { flagalalarmtemp = 1 }) r)
        | high ↦
            alert m cal id tag_measure_temp overflow_up
              (store_device i (record d { flagalalarmtemp = 2 }) r)
      ]

  unfoldable pub check_umidita : Radio → Radio
  unfolding alert
  check_umidita r =
      let d = device_at r i in
      let id = signed16 d.id in
      elim (judge d.min_umidita d.max_umidita d.umidita d.flagalalarmhumi) [
        | unchanged ↦ r
        | cleared ↦ store_device i (record d { flagalalarmhumi = 0 }) r
        | low ↦
            alert m cal id tag_measure_humi overflow_dwn
              (store_device i (record d { flagalalarmhumi = 1 }) r)
        | high ↦
            alert m cal id tag_measure_humi overflow_up
              (store_device i (record d { flagalalarmhumi = 2 }) r)
      ]

  unfoldable pub check_batteria : Radio → Radio
  unfolding alert
  check_batteria r =
      let d = device_at r i in
      let id = signed16 d.id in
      elim (judge d.min_batteria d.max_batteria d.batteria d.flagalalarmbatt) [
        | unchanged ↦ r
        | cleared ↦ store_device i (record d { flagalalarmbatt = 0 }) r
        | low ↦
            alert m cal id tag_measure_batt overflow_dwn
              (store_device i (record d { flagalalarmbatt = 1 }) r)
        | high ↦
            alert m cal id tag_measure_batt overflow_up
              (store_device i (record d { flagalalarmbatt = 2 }) r)
      ]

  unfoldable pub check_sensor_thresholds : Radio → Radio
  unfolding check_temperature check_umidita check_batteria
  check_sensor_thresholds r = check_batteria (check_umidita (check_temperature r))
