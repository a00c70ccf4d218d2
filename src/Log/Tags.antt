-- ===== src/Log/Tags.antt =====
-- The records that the `Tag_…` functions of sw/rimms.c append to the sample file, byte by byte.
-- A function returns the bytes handed to `WriteToFile`, `none` where it returns -1 before that.
use ri_mms_linux.Prelude.{ℕ, ◌+◌, ◌*◌, ◌||◌, List, [], ◌∷◌, ◌++◌, Option, none, some}
use ri_mms_linux.Prelude.{length, set, ltb, leb, ◌==◌, if◌then◌else◌}
use ri_mms_linux.Prelude.Words.{byte, u16}
use ri_mms_linux.Prelude.Int.{ℤ, pattern16, pattern32}
use ri_mms_linux.Log.{Files, write_to_file}

abbrev pub tag_measure_batt : ℕ
tag_measure_batt = 50

abbrev pub tag_measure_temp : ℕ
tag_measure_temp = 51

abbrev pub tag_measure_humi : ℕ
tag_measure_humi = 52

abbrev pub overflow_up : ℕ
overflow_up = 0

abbrev pub overflow_dwn : ℕ
overflow_dwn = 1

abbrev pub type_sensore : ℕ
type_sensore = 0

abbrev pub type_attuatore : ℕ
type_attuatore = 1

-- The four bytes of a DWORD_D, the highest first.
abbrev pub dword_bytes : ℤ → List ℕ
dword_bytes v = let w = pattern32 v in byte w 3 ∷ byte w 2 ∷ byte w 1 ∷ byte w 0 ∷ []

-- The two bytes of a WORD_D, the higher first. A `long` is cut to a `short` on the way in.
abbrev pub word_bytes : ℤ → List ℕ
word_bytes v = let w = pattern16 v in byte w 1 ∷ byte w 0 ∷ []

unfoldable pub tag_currentsensor : ℤ → List ℕ
tag_currentsensor id = 15 ∷ dword_bytes id

unfoldable pub tag_batteria : ℤ → List ℕ
tag_batteria value = tag_measure_batt ∷ word_bytes value

unfoldable pub tag_temperatura : ℤ → List ℕ
tag_temperatura value = tag_measure_temp ∷ word_bytes value

unfoldable pub tag_umidita : ℤ → List ℕ
tag_umidita value = tag_measure_humi ∷ word_bytes value

unfoldable pub tag_sampling_started : List ℕ
tag_sampling_started = 2 ∷ []

unfoldable pub tag_sampling_stopped : List ℕ
tag_sampling_stopped = 3 ∷ []

-- `datavalue.Val = second*10`, an `int` cut to a `short`.
unfoldable pub tag_sample_time_changed : ℕ → List ℕ
tag_sample_time_changed second = let w = u16 (second * 10) in 4 ∷ byte w 1 ∷ byte w 0 ∷ []

unfoldable pub tag_download_started : List ℕ
tag_download_started = 5 ∷ []

unfoldable pub tag_download_completed : List ℕ
tag_download_completed = 6 ∷ []

unfoldable pub tag_download_failed : List ℕ
tag_download_failed = 7 ∷ []

unfoldable pub tag_power_off : List ℕ
tag_power_off = 9 ∷ []

unfoldable pub tag_data_cleared : List ℕ
tag_data_cleared = 10 ∷ []

unfoldable pub tag_sensorfailure : ℤ → List ℕ
tag_sensorfailure id = 12 ∷ dword_bytes id

unfoldable pub tag_elementremoved : ℤ → List ℕ
tag_elementremoved id = 14 ∷ dword_bytes id

unfoldable pub tag_memory_full : List ℕ
tag_memory_full = 11 ∷ []

unfoldable pub tag_storage_cleared : List ℕ
tag_storage_cleared = 10 ∷ []

unfoldable pub tag_threshold_overflow_alert : ℤ → ℕ → ℕ → Option (List ℕ)
tag_threshold_overflow_alert id measure ud =
    if measure == tag_measure_batt || (measure == tag_measure_temp || measure == tag_measure_humi)
    then (if ud == overflow_up || ud == overflow_dwn
        then some ((16 ∷ dword_bytes id) ++ (measure ∷ ud ∷ []))
        else none)
    else none

-- `sprintf(&data[at], …)`: the characters and a zero after them.
abbrev pub store_text : List ℕ → ℕ → List ℕ → List ℕ
store_text cells at [] = set cells at 0
store_text cells at (c ∷ cs) = store_text (set cells at c) (at + 1) cs

abbrev pub store_bytes : List ℕ → ℕ → List ℕ → List ℕ
store_bytes cells at [] = cells
store_bytes cells at (c ∷ cs) = store_bytes (set cells at c) (at + 1) cs

-- The array of `Tag_NEWELEMENT` when all of it has been filled in. `stack` is what the
-- uninitialised `data[168]` holds, `address` the radio address as `"%u"` prints it.
unfoldable pub newelement_array : List ℕ → ℤ → List ℕ → List ℕ → ℕ → ℕ → List ℕ
newelement_array stack id address name type mask =
    let numbered = store_bytes (set stack 0 13) 1 (dword_bytes id) in
    let named = store_text (store_text numbered 5 address) 125 name in
    set (set (set named 165 type) 166 0) 167 mask

-- `Tag_NEWELEMENT`: what is refused is refused before `WriteToFile`.
unfoldable pub tag_newelement : List ℕ → ℤ → List ℕ → List ℕ → ℕ → ℕ → Option (List ℕ)
tag_newelement stack id address name type mask =
    if ltb (length name) 40
    then (if type == type_sensore || type == type_attuatore
        then (if leb mask 7 then some (newelement_array stack id address name type mask) else none)
        else none)
    else none

-- Hands the bytes on to `WriteToFile`. No caller in the program looks at the result of a tag.
abbrev pub log : List ℕ → Files → Files
log bytes f = (write_to_file bytes f).0

abbrev pub log_option : Option (List ℕ) → Files → Files
log_option none f = f
log_option (some bytes) f = log bytes f
