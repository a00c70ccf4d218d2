-- ===== src/Radio/Logging.antt =====
-- What `ParserData` and `CheckSensorThresholds` log: whole records.
use ri_mms_linux.Prelude.{
  ℕ, zero, suc, ◌+◌, Bool, true, false, Option, none, some, ◌==◌, if◌then◌else◌,
}
use ri_mms_linux.Prelude.Int.{ℤ, pos}
use ri_mms_linux.Log.Stamp.{Calendar}
use ri_mms_linux.Log.Tags.{tag_threshold_overflow_alert}
use ri_mms_linux.Log.Entries.{sor, currentsensor, batteria, temperatura, umidita, threshold}
use ri_mms_linux.Log.Readable.{IsLogged, log-IsLogged, log_option-IsLogged}
use ri_mms_linux.Radio.State.{Radio, Moment, force_upload, device_at}
use ri_mms_linux.Radio.Payload.{
  get_buffer_data, Quad, fetch_quad, Stack, record_sample, keep_sample, convert, take_sample,
  mask_branch, sample_rounds, parse_measures, parser_data, Mask, all_measures, temperature_only,
  unknown_mask,
}
use ri_mms_linux.Radio.Thresholds.{
  Outcome, judge, unchanged, cleared, low, high, alert, check_temperature, check_umidita,
  check_batteria, check_sensor_thresholds,
}

-- The files of the radio's state are readable.
pub data IsLogging : Radio → Type 0 where
  logging : (r : Radio) → IsLogged r.files → IsLogging r

pub files-IsLogging : {r : Radio} → IsLogging r → IsLogged r.files
files-IsLogging (logging r l) = l

pub if-IsLogging :
    (b : Bool) (r s : Radio) → IsLogging r → IsLogging s → IsLogging (if b then r else s)
if-IsLogging true r s p q = p
if-IsLogging false r s p q = q

outcome-IsLogging :
    (o : Outcome) (r s t u : Radio)
    → IsLogging r
    → IsLogging s
    → IsLogging t
    → IsLogging u
    → IsLogging (elim o [ unchanged ↦ r | cleared ↦ s | low ↦ t | high ↦ u ])
outcome-IsLogging unchanged r s t u p q v w = p
outcome-IsLogging cleared r s t u p q v w = q
outcome-IsLogging low r s t u p q v w = v
outcome-IsLogging high r s t u p q v w = w

module _ (m : Moment) (cal : Calendar) where
  alert-IsLogging :
      (id : ℤ) (measure ud : ℕ) (r : Radio) → IsLogging r → IsLogging (alert m cal id measure ud r)
  unfolding alert force_upload
  alert-IsLogging id measure ud r l = logging _ (
      log_option-IsLogged (tag_threshold_overflow_alert id measure ud) _
        (λ b e. threshold id measure ud e)
        (log-IsLogged _ r.files (sor cal m.time (pos 0)) (files-IsLogging l)))

  module _ (i : ℕ) where
    record_sample-IsLogged :
        (id time : ℤ) (r : Radio) → IsLogged r.files → IsLogged (record_sample m cal i id time r)
    unfolding record_sample
    record_sample-IsLogged id time r l = log-IsLogged _ _ (umidita _) (
        log-IsLogged _ _ (sor cal m.time time) (
          log-IsLogged _ _ (temperatura _) (
            log-IsLogged _ _ (sor cal m.time time) (
              log-IsLogged _ _ (batteria _) (
                log-IsLogged _ _ (sor cal m.time time) (
                  log-IsLogged _ _ (currentsensor id)
                    (log-IsLogged _ _ (sor cal m.time (pos 0)) l)))))))

    keep_sample-IsLogging :
        (stamp period : ℤ) (k : ℕ) (q : Quad) (r : Radio)
        → IsLogging r
        → IsLogging (keep_sample m cal i stamp period k q r)
    unfolding keep_sample
    keep_sample-IsLogging stamp period k q r l =
        search (if-IsLogging, logging, record_sample-IsLogged, files-IsLogging, l) depth 10

    convert-IsLogging :
        (k : Mask) (q : Quad) (r : Radio) → IsLogging r → IsLogging (convert m cal i k q r)
    unfolding convert
    convert-IsLogging all_measures q r l = logging _ (files-IsLogging l)
    convert-IsLogging temperature_only q r l = logging _ (files-IsLogging l)
    convert-IsLogging unknown_mask q r l = l

    sample_rounds-IsLogging :
        (n k : ℕ) (stamp period : ℤ) (mask : ℕ) (old : Quad) (r : Radio)
        → IsLogging r
        → IsLogging (sample_rounds m cal i n k stamp period mask old r)
    unfolding sample_rounds take_sample
    sample_rounds-IsLogging zero k stamp period mask old r l = l
    sample_rounds-IsLogging (suc n) k stamp period mask old r l =
        let q = (fetch_quad old r.payload).0 in
        let r1 : Radio = record r { payload = (fetch_quad old r.payload).1 } in
        sample_rounds-IsLogging n (k + 1) stamp period mask q _ (
          keep_sample-IsLogging stamp period k q _
            (convert-IsLogging (mask_branch mask) q r1 (logging _ (files-IsLogging l))))

    parse_measures-IsLogging :
        (stack : Stack) (r : Radio) → IsLogging r → IsLogging (parse_measures m cal i stack r)
    unfolding parse_measures
    parse_measures-IsLogging stack r l = logging _ (
        files-IsLogging
          (sample_rounds-IsLogging 6 0 _ _ _ stack.sample _ (logging _ (files-IsLogging l))))

    pub parser_data-IsLogging :
        (stack : Stack) (r : Radio) → IsLogging r → IsLogging (parser_data m cal i stack r)
    unfolding parser_data
    parser_data-IsLogging stack r l = by_read (get_buffer_data r.payload).0
      where
        left : Radio
        left = record r { payload = (get_buffer_data r.payload).1 }

        left-IsLogging : IsLogging left
        left-IsLogging = logging _ (files-IsLogging l)

        by_read :
            (o : Option ℕ)
            → IsLogging (elim o [
              | none ↦ left
              | some type ↦ if type == 0x01 then parse_measures m cal i stack left else left
            ])
        by_read none = left-IsLogging
        by_read (some type) =
            if-IsLogging (type == 0x01) _ _ (parse_measures-IsLogging stack left left-IsLogging)
              left-IsLogging

    pub check_sensor_thresholds-IsLogging :
        (r : Radio) → IsLogging r → IsLogging (check_sensor_thresholds m cal i r)
    unfolding check_sensor_thresholds
    check_sensor_thresholds-IsLogging r l =
        battery_checked _ (humidity_checked _ (degrees_checked r l))
      where
        degrees_checked : (r : Radio) → IsLogging r → IsLogging (check_temperature m cal i r)
        degrees_checked r l =
            let d = device_at r i in
            let same = files-IsLogging l in
            unfold check_temperature in
            outcome-IsLogging
              (judge d.min_temperature d.max_temperature d.temperature d.flagalalarmtemp) _ _ _ _ l
              (logging _ same) (alert-IsLogging _ _ _ _ (logging _ same))
              (alert-IsLogging _ _ _ _ (logging _ same))

        humidity_checked : (r : Radio) → IsLogging r → IsLogging (check_umidita m cal i r)
        humidity_checked r l =
            let d = device_at r i in
            let same = files-IsLogging l in
            unfold check_umidita in
            outcome-IsLogging (judge d.min_umidita d.max_umidita d.umidita d.flagalalarmhumi) _ _ _
              _ l (logging _ same) (alert-IsLogging _ _ _ _ (logging _ same))
              (alert-IsLogging _ _ _ _ (logging _ same))

        battery_checked : (r : Radio) → IsLogging r → IsLogging (check_batteria m cal i r)
        battery_checked r l =
            let d = device_at r i in
            let same = files-IsLogging l in
            unfold check_batteria in
            outcome-IsLogging (judge d.min_batteria d.max_batteria d.batteria d.flagalalarmbatt) _ _
              _ _ l (logging _ same) (alert-IsLogging _ _ _ _ (logging _ same))
              (alert-IsLogging _ _ _ _ (logging _ same))
