-- ===== src/Radio/Thresholds/Sections.antt =====
-- The three sections of a check one after the other, each as one equation, and their sum.
use ri_mms_linux.Prelude.{ℕ, ◌<◌, ◌≡◌, refl, ap, sym, ◌∙◌, arith}
use mathlib.Core.Path.{subst}
use ri_mms_linux.Prelude.{List, [], ◌∷◌, ◌++◌, append_assoc, ◌||◌, length}
use ri_mms_linux.Prelude.{get_or-set_self, if◌then◌else◌, ◌==◌}
use ri_mms_linux.Prelude.Int.{ℤ, signed16}
use ri_mms_linux.Device.{Device, blank}
use ri_mms_linux.Log.Stamp.{Calendar}
use ri_mms_linux.Log.Tags.{
  tag_measure_batt, tag_measure_temp, tag_measure_humi, overflow_up, overflow_dwn,
}
use ri_mms_linux.Radio.State.{Radio, Moment, device_at}
use ri_mms_linux.Radio.Thresholds.{
  Outcome, unchanged, judge, check_temperature, check_umidita, check_batteria,
  check_sensor_thresholds,
}
-- The alarm for a flag that goes from `old` to `new`: none if it stays or goes to 0.
use ri_mms_linux.Radio.Thresholds.Outcomes.{
  outcome, section_temperature, section_umidita, section_batteria, outcome-outcome, flag_for,
  judged, alarm_of, judge-flag, flag_of,
}

abbrev pub alarm_for : ℕ → ℕ → ℕ → List (ℕ × ℕ)
alarm_for measure old new =
    if new == 0 || new == old
    then []
    else (measure, if new == 1 then overflow_dwn else overflow_up) ∷ []

alarm_of-judge :
    (measure : ℕ) (lowest highest value : ℤ) (flag : ℕ)
    → alarm_of measure (judge lowest highest value flag)
      ≡ alarm_for measure flag (flag_for lowest highest value flag)
unfolding judge
alarm_of-judge measure lowest highest value flag = ground arith

-- The alarms that the change of the flags from one state of a sensor to another calls for, in the
-- order temperature, humidity, battery.
abbrev pub alarms_between : Device → Device → List (ℕ × ℕ)
alarms_between d e =
    alarm_for tag_measure_temp d.flagalalarmtemp e.flagalalarmtemp
    ++ (alarm_for tag_measure_humi d.flagalalarmhumi e.flagalalarmhumi
        ++ alarm_for tag_measure_batt d.flagalalarmbatt e.flagalalarmbatt)

-- The three flags with the verdicts as variables.
abbrev flagged : Device → Outcome → Outcome → Outcome → Device
flagged d t h b = record d {
  flagalalarmtemp = flag_of d.flagalalarmtemp t;
  flagalalarmhumi = flag_of d.flagalalarmhumi h;
  flagalalarmbatt = flag_of d.flagalalarmbatt b;
}

flagged-judged :
    (d : Device)
    → flagged d
        (judge d.min_temperature d.max_temperature d.temperature d.flagalalarmtemp)
        (judge d.min_umidita d.max_umidita d.umidita d.flagalalarmhumi)
        (judge d.min_batteria d.max_batteria d.batteria d.flagalalarmbatt)
      ≡ judged d
flagged-judged d = λ j. record d {
  flagalalarmtemp =
      sym (judge-flag d.min_temperature d.max_temperature d.temperature d.flagalalarmtemp _ refl) j;
  flagalalarmhumi =
      sym (judge-flag d.min_umidita d.max_umidita d.umidita d.flagalalarmhumi _ refl) j;
  flagalalarmbatt =
      sym (judge-flag d.min_batteria d.max_batteria d.batteria d.flagalalarmbatt _ refl) j;
}

module _ (m : Moment) (cal : Calendar) (i : ℕ) where
  pub device-outcome :
      (id : ℤ) (d : Device) (xs : List (ℕ × ℕ)) (r : Radio)
      → i < length r.devices
      → device_at (outcome m cal i id d xs r) i ≡ d
  device-outcome id d xs r h = get_or-set_self r.devices i d blank h

  umidita_at :
      (r : Radio) (d : Device)
      → device_at r i ≡ d
      → let o = judge d.min_umidita d.max_umidita d.umidita d.flagalalarmhumi in
        check_umidita m cal i r
        ≡ outcome m cal i
            (signed16 d.id)
            (record d { flagalalarmhumi = flag_of d.flagalalarmhumi o })
            (alarm_of tag_measure_humi o)
            r
  umidita_at r d e =
      subst
        (λ (d : Device).
          let o = judge d.min_umidita d.max_umidita d.umidita d.flagalalarmhumi in
          check_umidita m cal i r
          ≡ outcome m cal i (signed16 d.id)
              (record d { flagalalarmhumi = flag_of d.flagalalarmhumi o })
              (alarm_of tag_measure_humi o) r)
        e (section_umidita m cal i r _ refl)

  batteria_at :
      (r : Radio) (d : Device)
      → device_at r i ≡ d
      → let o = judge d.min_batteria d.max_batteria d.batteria d.flagalalarmbatt in
        check_batteria m cal i r
        ≡ outcome m cal i
            (signed16 d.id)
            (record d { flagalalarmbatt = flag_of d.flagalalarmbatt o })
            (alarm_of tag_measure_batt o)
            r
  batteria_at r d e =
      subst
        (λ (d : Device).
          let o = judge d.min_batteria d.max_batteria d.batteria d.flagalalarmbatt in
          check_batteria m cal i r
          ≡ outcome m cal i (signed16 d.id)
              (record d { flagalalarmbatt = flag_of d.flagalalarmbatt o })
              (alarm_of tag_measure_batt o) r)
        e (section_batteria m cal i r _ refl)

  pub check-outcome :
      (r : Radio)
      → i < length r.devices
      → let d = device_at r i in
        check_sensor_thresholds m cal i r
        ≡ outcome m cal i (signed16 d.id) (judged d) (alarms_between d (judged d)) r
  unfolding check_sensor_thresholds
  check-outcome r h =
      let d = device_at r i in
      let id = signed16 d.id in
      let t = judge d.min_temperature d.max_temperature d.temperature d.flagalalarmtemp in
      let u = judge d.min_umidita d.max_umidita d.umidita d.flagalalarmhumi in
      let b = judge d.min_batteria d.max_batteria d.batteria d.flagalalarmbatt in
      let at = alarm_of tag_measure_temp t in
      let au = alarm_of tag_measure_humi u in
      let ab = alarm_of tag_measure_batt b in
      let at' =
        alarm_for tag_measure_temp d.flagalalarmtemp
          (flag_for d.min_temperature d.max_temperature d.temperature d.flagalalarmtemp) in
      let au' =
        alarm_for tag_measure_humi d.flagalalarmhumi
          (flag_for d.min_umidita d.max_umidita d.umidita d.flagalalarmhumi) in
      let d1 = flagged d t unchanged unchanged in
      let d2 = flagged d t u unchanged in
      let r1 = outcome m cal i id d1 at r in
      let r2 = outcome m cal i id d2 (at ++ au) r in
      let e1 : check_temperature m cal i r ≡ r1 = section_temperature m cal i r t refl in
      let e2 : check_umidita m cal i r1 ≡ r2 =
        umidita_at r1 d1 (device-outcome id d1 at r h) ∙ outcome-outcome m cal i id d1 d2 at au r in
      let e3 : check_batteria m cal i r2
          ≡ outcome m cal i id (flagged d t u b) ((at ++ au) ++ ab) r =
        batteria_at r2 d2 (device-outcome id d2 (at ++ au) r h)
        ∙ outcome-outcome m cal i id d2 (flagged d t u b) (at ++ au) ab r in
      ap (λ s. check_batteria m cal i (check_umidita m cal i s)) e1
      ∙ ap (check_batteria m cal i) e2
      ∙ e3
      ∙ ap (λ xs. outcome m cal i id (flagged d t u b) xs r) (append_assoc at au ab)
      ∙ ap (λ xs. outcome m cal i id (flagged d t u b) (xs ++ (au ++ ab)) r)
          (alarm_of-judge tag_measure_temp d.min_temperature d.max_temperature d.temperature
            d.flagalalarmtemp)
      ∙ ap (λ xs. outcome m cal i id (flagged d t u b) (at' ++ (xs ++ ab)) r)
          (alarm_of-judge tag_measure_humi d.min_umidita d.max_umidita d.umidita d.flagalalarmhumi)
      ∙ ap (λ xs. outcome m cal i id (flagged d t u b) (at' ++ (au' ++ xs)) r)
          (alarm_of-judge tag_measure_batt d.min_batteria d.max_batteria d.batteria
            d.flagalalarmbatt)
      ∙ ap (λ e. outcome m cal i id e (alarms_between d (judged d)) r) (flagged-judged d)
