-- ===== src/Log/Entries.antt =====
-- The sample file is a sequence of records with no separators: the tag code tells how long a
-- record is, so a reader can take the file apart again. Parameters of `Tag_NEWELEMENT` as there.
use ri_mms_linux.Prelude.{ℕ, zero, suc, ◌≡◌, refl, ap, ◌∙◌, arith}
use ri_mms_linux.Prelude.{List, [], ◌∷◌, ◌++◌, Option, none, some}
use ri_mms_linux.Prelude.{length, take, drop, set, length-set, take-append, drop-append}
use ri_mms_linux.Prelude.{◌==◌, if◌then◌else◌, ◌||◌, ◌&&◌, leb}
use ri_mms_linux.Prelude.Int.{ℤ}
use ri_mms_linux.Log.Stamp.{Calendar, stamp_bytes, tag_sor, tag_date_time_change}
use ri_mms_linux.Log.Tags.{
  dword_bytes, store_text, store_bytes, tag_currentsensor, tag_batteria, tag_temperatura,
  tag_umidita, tag_sampling_started, tag_sampling_stopped, tag_sample_time_changed,
  tag_download_started, tag_download_completed, tag_download_failed, tag_power_off,
  tag_data_cleared, tag_sensorfailure, tag_elementremoved, tag_memory_full, tag_storage_cleared,
  tag_threshold_overflow_alert, newelement_array, tag_newelement,
}
-- How many bytes follow a tag code.
use ri_mms_linux.Log.Arrays.{
  length-store_text, head_of, head-set, head-store_text, head-store_bytes, head_written,
}

abbrev pub payload : ℕ → Option ℕ
payload code =
    if code == 1 || code == 8
    then some 5
    else if code == 12 || (code == 14 || code == 15)
    then some 4
    else if code == 4 || (code == 50 || (code == 51 || code == 52))
    then some 2
    else if code == 13
    then some 167
    else if code == 16
    then some 6
    else if leb 2 code && leb code 11
    then some 0
    else none

-- One record off the front of a file.
abbrev pub read_record : List ℕ → Option (List ℕ × List ℕ)
read_record [] = none
read_record (code ∷ bytes) = elim (payload code) [
  | none ↦ none
  | some n ↦ some (code ∷ take n bytes, drop n bytes)
]

-- The byte strings that the tag functions write.
pub data IsRecord : List ℕ → Type 0 where
  sor : (cal : Calendar) (now t : ℤ) → IsRecord (tag_sor cal now t)
  date_time_change : (cal : Calendar) (now : ℤ) → IsRecord (tag_date_time_change cal now)
  currentsensor : (id : ℤ) → IsRecord (tag_currentsensor id)
  batteria : (v : ℤ) → IsRecord (tag_batteria v)
  temperatura : (v : ℤ) → IsRecord (tag_temperatura v)
  umidita : (v : ℤ) → IsRecord (tag_umidita v)
  sampling_started : IsRecord tag_sampling_started
  sampling_stopped : IsRecord tag_sampling_stopped
  sample_time_changed : (s : ℕ) → IsRecord (tag_sample_time_changed s)
  download_started : IsRecord tag_download_started
  download_completed : IsRecord tag_download_completed
  download_failed : IsRecord tag_download_failed
  power_off : IsRecord tag_power_off
  data_cleared : IsRecord tag_data_cleared
  storage_cleared : IsRecord tag_storage_cleared
  memory_full : IsRecord tag_memory_full
  sensorfailure : (id : ℤ) → IsRecord (tag_sensorfailure id)
  elementremoved : (id : ℤ) → IsRecord (tag_elementremoved id)
  threshold :
      (id : ℤ) (measure ud : ℕ) {b : List ℕ}
      → tag_threshold_overflow_alert id measure ud ≡ some b
      → IsRecord b
  newelement :
      (stack : List ℕ) (id : ℤ) (address name : List ℕ) (type mask : ℕ) {b : List ℕ}
      → length stack ≡ 168
      → tag_newelement stack id address name type mask ≡ some b
      → IsRecord b

-- A record is a code and as many bytes as the code announces.
pub record Framed (b : List ℕ) : Type 0 where
  pub code : ℕ
  pub rest : List ℕ
  pub whole : b ≡ code ∷ rest
  pub announced : payload code ≡ some (length rest)

Framed-of_head :
    (b : List ℕ) (code n : ℕ)
    → length b ≡ suc n
    → head_of b ≡ code
    → payload code ≡ some n
    → Framed b
unfolding head_of
Framed-of_head [] code n l h p = absurd (omega arith)
Framed-of_head (x ∷ xs) code n l h p =
    let same : length xs ≡ n = omega arith in
    record { code = x; rest = xs; whole = refl; announced = rw (h, same) p }

-- What `Tag_NEWELEMENT` fills in is a string of 168 bytes that starts with its code.
module _ (stack : List ℕ) (id : ℤ) (address name : List ℕ) (type mask : ℕ) where
  pub length-newelement_array :
      length (newelement_array stack id address name type mask) ≡ length stack
  unfolding newelement_array
  length-newelement_array = simp (length-set, length-store_text)

  head-newelement_array :
      length stack ≡ 168 → head_of (newelement_array stack id address name type mask) ≡ 13
  unfolding newelement_array
  head-newelement_array s =
      let numbered : List ℕ = store_bytes (set stack 0 13) 1 (dword_bytes id) in
      let addressed : List ℕ = store_text numbered 5 address in
      let named : List ℕ = store_text addressed 125 name in
      head-set (set (set named 165 type) 166 0) 167 mask (omega arith)
      ∙ head-set (set named 165 type) 166 0 (omega arith)
      ∙ head-set named 165 type (omega arith)
      ∙ head-store_text addressed 125 name (omega arith)
      ∙ head-store_text numbered 5 address (omega arith)
      ∙ head-store_bytes (set stack 0 13) 1 (dword_bytes id) (omega arith)
      ∙ head_written stack 13 (omega arith)

  -- What is written is the array.
  newelement_writes :
      {b : List ℕ}
      → tag_newelement stack id address name type mask ≡ some b
      → newelement_array stack id address name type mask ≡ b
  unfolding tag_newelement
  newelement_writes e = ground arith

  newelement-Framed :
      {b : List ℕ}
      → length stack ≡ 168
      → tag_newelement stack id address name type mask ≡ some b
      → Framed b
  newelement-Framed {b} s e =
      let same : newelement_array stack id address name type mask ≡ b = newelement_writes e in
      Framed-of_head b 13 167 (rw (← same) (length-newelement_array ∙ s))
        (rw (← same) (head-newelement_array s)) refl

threshold-Framed :
    (id : ℤ) (measure ud : ℕ) {b : List ℕ}
    → tag_threshold_overflow_alert id measure ud ≡ some b
    → Framed b
unfolding tag_threshold_overflow_alert
threshold-Framed id measure ud {b} e = record {
  code = 16;
  rest = dword_bytes id ++ (measure ∷ ud ∷ []);
  whole = ground arith;
  announced = refl;
}

pub IsRecord-Framed : {b : List ℕ} → IsRecord b → Framed b
unfolding tag_sor tag_date_time_change stamp_bytes tag_currentsensor tag_batteria tag_temperatura
    tag_umidita tag_sampling_started tag_sampling_stopped tag_sample_time_changed
    tag_download_started tag_download_completed tag_download_failed tag_power_off tag_data_cleared
    tag_storage_cleared tag_memory_full tag_sensorfailure tag_elementremoved
IsRecord-Framed (sor cal now t) = record { code = 1; rest = _; whole = refl; announced = refl }
IsRecord-Framed (date_time_change cal now) = record {
  code = 8;
  rest = _;
  whole = refl;
  announced = refl;
}
IsRecord-Framed (currentsensor id) = record { code = 15; rest = _; whole = refl; announced = refl }
IsRecord-Framed (batteria v) = record { code = 50; rest = _; whole = refl; announced = refl }
IsRecord-Framed (temperatura v) = record { code = 51; rest = _; whole = refl; announced = refl }
IsRecord-Framed (umidita v) = record { code = 52; rest = _; whole = refl; announced = refl }
IsRecord-Framed sampling_started = record { code = 2; rest = _; whole = refl; announced = refl }
IsRecord-Framed sampling_stopped = record { code = 3; rest = _; whole = refl; announced = refl }
IsRecord-Framed (sample_time_changed s) = record {
  code = 4;
  rest = _;
  whole = refl;
  announced = refl;
}
IsRecord-Framed download_started = record { code = 5; rest = _; whole = refl; announced = refl }
IsRecord-Framed download_completed = record { code = 6; rest = _; whole = refl; announced = refl }
IsRecord-Framed download_failed = record { code = 7; rest = _; whole = refl; announced = refl }
IsRecord-Framed power_off = record { code = 9; rest = _; whole = refl; announced = refl }
IsRecord-Framed data_cleared = record { code = 10; rest = _; whole = refl; announced = refl }
IsRecord-Framed storage_cleared = record { code = 10; rest = _; whole = refl; announced = refl }
IsRecord-Framed memory_full = record { code = 11; rest = _; whole = refl; announced = refl }
IsRecord-Framed (sensorfailure id) = record { code = 12; rest = _; whole = refl; announced = refl }
IsRecord-Framed (elementremoved id) = record { code = 14; rest = _; whole = refl; announced = refl }
IsRecord-Framed (threshold id measure ud e) = threshold-Framed id measure ud e
IsRecord-Framed (newelement stack id address name type mask s e) =
    newelement-Framed stack id address name type mask s e

read-Framed : (b rest : List ℕ) → Framed b → read_record (b ++ rest) ≡ some (b, rest)
read-Framed b rest f =
    let w = f.whole in
    let a = f.announced in rw (w, read_record, a, take-append f.rest rest, drop-append f.rest rest)

-- A file of records taken apart; the fuel bounds the number of records.
abbrev pub read_records : ℕ → List ℕ → List (List ℕ)
read_records zero bytes = []
read_records (suc fuel) bytes = elim (read_record bytes) [
  | none ↦ []
  | some (b, rest) ↦ b ∷ read_records fuel rest
]

-- The records one after the other, as the calls of `WriteToFile` leave them in the file.
abbrev pub concat : List (List ℕ) → List ℕ
concat [] = []
concat (b ∷ bs) = b ++ concat bs

abbrev pub AllRecords : List (List ℕ) → Type 0
AllRecords [] = Unit
AllRecords (b ∷ bs) = IsRecord b × AllRecords bs

-- Whatever records the tag functions have written, in whatever order, a reader that knows only how
-- many bytes follow each tag code gets exactly those records back from the file.
pub read_records-concat :
    (bs : List (List ℕ)) → AllRecords bs → read_records (length bs) (concat bs) ≡ bs
read_records-concat [] h = refl
read_records-concat (b ∷ bs) h =
    rw (read_records, read-Framed b (concat bs) (IsRecord-Framed h.0))
      (ap (λ t. b ∷ t) (read_records-concat bs h.1))
