-- ===== src/Radio/Thresholds/Laws.antt =====
-- The alarm flags after a check, and when an alarm is recorded.
use ri_mms_linux.Prelude.{ℕ, ◌<◌, ◌≡◌, ap, sym, ◌∙◌, arith}
use ri_mms_linux.Prelude.{List, [], length, set}
use ri_mms_linux.Prelude.{length-set}
use ri_mms_linux.Prelude.Int.{ℤ, signed16}
use ri_mms_linux.Device.{Device}
use ri_mms_linux.Log.Stamp.{Calendar}
use ri_mms_linux.Log.Tags.{tag_measure_batt, tag_measure_temp, tag_measure_humi}
use ri_mms_linux.Radio.State.{Radio, Moment, device_at}
use ri_mms_linux.Radio.Thresholds.Sections.{
  check-outcome, device-outcome, alarm_for, alarms_between,
}
use ri_mms_linux.Radio.Thresholds.Outcomes.{outcome, set-set, judged, flag_for, log_alarms, forced}
use ri_mms_linux.Radio.Thresholds.{check_sensor_thresholds}

flag_for_again :
    (lowest highest value : ℤ) (flag : ℕ)
    → flag_for lowest highest value (flag_for lowest highest value flag)
      ≡ flag_for lowest highest value flag
flag_for_again lowest highest value flag = ground arith

judged_again : (d : Device) → judged (judged d) ≡ judged d
judged_again d = λ j. record d {
  flagalalarmtemp =
      flag_for_again d.min_temperature d.max_temperature d.temperature d.flagalalarmtemp j;
  flagalalarmhumi = flag_for_again d.min_umidita d.max_umidita d.umidita d.flagalalarmhumi j;
  flagalalarmbatt = flag_for_again d.min_batteria d.max_batteria d.batteria d.flagalalarmbatt j;
}

alarm_for_same : (measure flag : ℕ) → alarm_for measure flag flag ≡ []
alarm_for_same measure flag = ground arith

alarms_between_same : (d : Device) → alarms_between d d ≡ []
alarms_between_same d = rw (
  alarm_for_same tag_measure_temp d.flagalalarmtemp,
  alarm_for_same tag_measure_humi d.flagalalarmhumi,
  alarm_for_same tag_measure_batt d.flagalalarmbatt,
)

module _ (m : Moment) (cal : Calendar) (i : ℕ) where
  -- A check of a sensor that is already judged raises nothing.
  check-outcome_at :
      (r : Radio) (d : Device)
      → device_at r i ≡ judged d
      → i < length r.devices
      → check_sensor_thresholds m cal i r ≡ outcome m cal i (signed16 d.id) (judged d) [] r
  check-outcome_at r d e h =
      check-outcome m cal i r h
      ∙ ap
          (λ (x : Device).
            outcome m cal i (signed16 x.id) (judged x) (alarms_between x (judged x)) r)
          e
      ∙ ap (λ (x : Device). outcome m cal i (signed16 d.id) x (alarms_between (judged d) x) r)
          (judged_again d)
      ∙ ap (λ xs. outcome m cal i (signed16 d.id) (judged d) xs r) (alarms_between_same (judged d))

  outcome_settled :
      (id : ℤ) (d : Device) (xs : List (ℕ × ℕ)) (r : Radio)
      → outcome m cal i id d [] (outcome m cal i id d xs r) ≡ outcome m cal i id d xs r
  outcome_settled id d xs r = λ j. record r {
    devices = set-set r.devices i d d j;
    files = log_alarms m cal id xs r.files;
    lasttransferperiod = forced m xs r;
  }

  -- For a sensor in the table, a check sets each flag to what its reading and limits say (1 below,
  -- 2 above, 0 between, as before where a limit is 0) and changes nothing else of the table; it
  -- records one alarm for each flag that changes to 1 or 2, in order and no other, and moves
  -- the upload to five seconds from now exactly if there is such an alarm.
  pub check_sensor_thresholds_lem :
      (r : Radio)
      → i < length r.devices
      → let d = device_at r i in
        let r' = check_sensor_thresholds m cal i r in
        let alarms = alarms_between d (judged d) in
        (r'.devices ≡ set r.devices i (judged d))
        × (r'.files ≡ log_alarms m cal (signed16 d.id) alarms r.files)
        × (r'.lasttransferperiod ≡ forced m alarms r)
  check_sensor_thresholds_lem r h =
      let e = check-outcome m cal i r h in
      (λ j. (e j).devices, λ j. (e j).files, λ j. (e j).lasttransferperiod)

  -- An alarm is given once: a second check of the same sensor with the same readings changes
  -- nothing, neither the table nor the sample file nor the upload timer.
  check_sensor_thresholds_twice :
      (r : Radio)
      → i < length r.devices
      → check_sensor_thresholds m cal i (check_sensor_thresholds m cal i r)
        ≡ check_sensor_thresholds m cal i r
  check_sensor_thresholds_twice r h =
      let d = device_at r i in
      let id = signed16 d.id in
      let xs = alarms_between d (judged d) in
      let r1 = outcome m cal i id (judged d) xs r in
      let once : check_sensor_thresholds m cal i r ≡ r1 = check-outcome m cal i r h in
      let same_length : length r1.devices ≡ length r.devices = length-set r.devices i (judged d) in
      let again : check_sensor_thresholds m cal i r1 ≡ outcome m cal i id (judged d) [] r1 =
        check-outcome_at r1 d (device-outcome m cal i id (judged d) xs r h) (omega arith) in
      ap (check_sensor_thresholds m cal i) once
      ∙ again
      ∙ outcome_settled id (judged d) xs r
      ∙ sym once
