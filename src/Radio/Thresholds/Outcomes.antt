-- ===== src/Radio/Thresholds/Outcomes.antt =====
-- Each section of a check as one equation: the sensor, the alarms and the upload after it.
use ri_mms_linux.Prelude.{ℕ, zero, suc, ◌≡◌, refl, ap, sym, arith}
use ri_mms_linux.Prelude.{List, [], ◌∷◌, ◌++◌, ◌||◌, get_or, set}
use ri_mms_linux.Prelude.{if◌then◌else◌}
use ri_mms_linux.Prelude.Int.{ℤ, pos, signed16, ltb_ℤ, ◌==ℤ◌, ◌+ℤ◌, ◌-ℤ◌}
use ri_mms_linux.Device.{Device, blank}
use ri_mms_linux.Log.{Files}
use ri_mms_linux.Log.Stamp.{Calendar, tag_sor}
use ri_mms_linux.Log.Tags.{
  tag_threshold_overflow_alert, tag_measure_batt, tag_measure_temp, tag_measure_humi, overflow_up,
  overflow_dwn, log, log_option,
}
use ri_mms_linux.Radio.State.{Radio, Moment, device_at, force_upload}
use ri_mms_linux.Radio.Thresholds.{
  Outcome, unchanged, cleared, low, high, judge, check_temperature, check_umidita, check_batteria,
}

-- What the flag should say: 1 below the limits, 2 above, 0 between; as before if a limit is not set.

-- What the flag should say: 1 below the limits, 2 above, 0 between; as before if a limit is not set.
abbrev pub flag_for : ℤ → ℤ → ℤ → ℕ → ℕ
flag_for lowest highest value flag =
    if lowest ==ℤ pos 0 || highest ==ℤ pos 0
    then flag
    else if ltb_ℤ value lowest
    then 1
    else if ltb_ℤ highest value
    then 2
    else 0

-- The sensor with its three flags set right.
abbrev pub judged : Device → Device
judged d = record d {
  flagalalarmtemp = flag_for d.min_temperature d.max_temperature d.temperature d.flagalalarmtemp;
  flagalalarmhumi = flag_for d.min_umidita d.max_umidita d.umidita d.flagalalarmhumi;
  flagalalarmbatt = flag_for d.min_batteria d.max_batteria d.batteria d.flagalalarmbatt;
}

-- Writing an element back changes nothing.
set-get_or : (ds : List Device) (i : ℕ) → set ds i (get_or ds i blank) ≡ ds
set-get_or [] i = refl
set-get_or (d ∷ ds) zero = refl
set-get_or (d ∷ ds) (suc i) = ap (λ t. d ∷ t) (set-get_or ds i)

pub set-set : (ds : List Device) (i : ℕ) (a b : Device) → set (set ds i a) i b ≡ set ds i b
set-set [] i a b = refl
set-set (d ∷ ds) zero a b = refl
set-set (d ∷ ds) (suc i) a b = ap (λ t. d ∷ t) (set-set ds i a b)

-- The alarm that a verdict raises.
abbrev pub alarm_of : ℕ → Outcome → List (ℕ × ℕ)
alarm_of measure unchanged = []
alarm_of measure cleared = []
alarm_of measure low = (measure, overflow_dwn) ∷ []
alarm_of measure high = (measure, overflow_up) ∷ []

abbrev pub log_alarms : Moment → Calendar → ℤ → List (ℕ × ℕ) → Files → Files
log_alarms m cal id [] f = f
log_alarms m cal id ((measure, ud) ∷ rest) f =
    log_alarms m cal id rest
      (log_option (tag_threshold_overflow_alert id measure ud) (log (tag_sor cal m.time (pos 0)) f))

abbrev pub forced : Moment → List (ℕ × ℕ) → Radio → ℤ
forced m [] r = r.lasttransferperiod
forced m (_ ∷ _) r = m.clock -ℤ r.transferperiod +ℤ pos 5

pub judge-flag :
    (lowest highest value : ℤ) (flag : ℕ) (o : Outcome)
    → judge lowest highest value flag ≡ o
    → flag_for lowest highest value flag
      ≡ elim o [ unchanged ↦ flag | cleared ↦ 0 | low ↦ 1 | high ↦ 2 ]
unfolding judge
judge-flag lowest highest value flag unchanged e = ground arith
judge-flag lowest highest value flag cleared e = ground arith
judge-flag lowest highest value flag low e = ground arith
judge-flag lowest highest value flag high e = ground arith

abbrev pub flag_of : ℕ → Outcome → ℕ
flag_of flag o = elim o [ unchanged ↦ flag | cleared ↦ 0 | low ↦ 1 | high ↦ 2 ]

module _ (m : Moment) (cal : Calendar) (i : ℕ) where
  -- The sensor replaced, alarms recorded, and the upload brought forward if there are any.
  abbrev pub outcome : ℤ → Device → List (ℕ × ℕ) → Radio → Radio
  outcome id d alarms r = record r {
    devices = set r.devices i d;
    files = log_alarms m cal id alarms r.files;
    lasttransferperiod = forced m alarms r;
  }

  pub log_alarms-append :
      (id : ℤ) (xs ys : List (ℕ × ℕ)) (f : Files)
      → log_alarms m cal id ys (log_alarms m cal id xs f) ≡ log_alarms m cal id (xs ++ ys) f
  log_alarms-append id [] ys f = refl
  log_alarms-append id ((measure, ud) ∷ xs) ys f = log_alarms-append id xs ys _

  pub forced_again :
      (id : ℤ) (d : Device) (xs ys : List (ℕ × ℕ)) (r : Radio)
      → forced m ys (outcome id d xs r) ≡ forced m (xs ++ ys) r
  forced_again id d [] [] r = refl
  forced_again id d [] (y ∷ ys) r = refl
  forced_again id d (x ∷ xs) [] r = refl
  forced_again id d (x ∷ xs) (y ∷ ys) r = refl

  pub outcome-outcome :
      (id : ℤ) (d e : Device) (xs ys : List (ℕ × ℕ)) (r : Radio)
      → outcome id e ys (outcome id d xs r) ≡ outcome id e (xs ++ ys) r
  outcome-outcome id d e xs ys r = λ j. record r {
    devices = set-set r.devices i d e j;
    files = log_alarms-append id xs ys r.files j;
    lasttransferperiod = forced_again id d xs ys r j;
  }

  pub section_temperature :
      (r : Radio) (o : Outcome)
      → let d = device_at r i in
        judge d.min_temperature d.max_temperature d.temperature d.flagalalarmtemp ≡ o
        → check_temperature m cal i r
          ≡ outcome
              (signed16 d.id)
              (record d { flagalalarmtemp = flag_of d.flagalalarmtemp o })
              (alarm_of tag_measure_temp o)
              r
  unfolding check_temperature force_upload
  section_temperature r unchanged e =
      rw (e, check_temperature) (λ j. record r { devices = sym (set-get_or r.devices i) j })
  section_temperature r cleared e = rw (e, check_temperature)
  section_temperature r low e = rw (e, check_temperature)
  section_temperature r high e = rw (e, check_temperature)

  pub section_umidita :
      (r : Radio) (o : Outcome)
      → let d = device_at r i in
        judge d.min_umidita d.max_umidita d.umidita d.flagalalarmhumi ≡ o
        → check_umidita m cal i r
          ≡ outcome
              (signed16 d.id)
              (record d { flagalalarmhumi = flag_of d.flagalalarmhumi o })
              (alarm_of tag_measure_humi o)
              r
  unfolding check_umidita force_upload
  section_umidita r unchanged e =
      rw (e, check_umidita) (λ j. record r { devices = sym (set-get_or r.devices i) j })
  section_umidita r cleared e = rw (e, check_umidita)
  section_umidita r low e = rw (e, check_umidita)
  section_umidita r high e = rw (e, check_umidita)

  pub section_batteria :
      (r : Radio) (o : Outcome)
      → let d = device_at r i in
        judge d.min_batteria d.max_batteria d.batteria d.flagalalarmbatt ≡ o
        → check_batteria m cal i r
          ≡ outcome
              (signed16 d.id)
              (record d { flagalalarmbatt = flag_of d.flagalalarmbatt o })
              (alarm_of tag_measure_batt o)
              r
  unfolding check_batteria force_upload
  section_batteria r unchanged e =
      rw (e, check_batteria) (λ j. record r { devices = sym (set-get_or r.devices i) j })
  section_batteria r cleared e = rw (e, check_batteria)
  section_batteria r low e = rw (e, check_batteria)
  section_batteria r high e = rw (e, check_batteria)
