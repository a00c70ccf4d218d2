-- ===== src/Log/Readable.antt =====
-- What stays readable: files made of whole records, and the file operations that keep them so.
use ri_mms_linux.Prelude.{
  ℕ, ◌≡◌, refl, ap, sym, ◌∙◌, Bool, true, false, List, [], ◌∷◌, ◌++◌, append_assoc, append-nil,
  Option, none, some, if◌then◌else◌,
}
use ri_mms_linux.Log.{Files, content, write_to_file, remove_file_sample, append_ram, remove_ram}
use ri_mms_linux.Log.Tags.{log, log_option}
use ri_mms_linux.Log.Entries.{IsRecord, AllRecords, concat}

-- Records of the tag functions, one after the other.
pub record IsReadable (bytes : List ℕ) : Type 0 where
  pub records : List (List ℕ)
  pub all_records : AllRecords records
  pub whole : bytes ≡ concat records

-- SAMPLE_FILE and SAMPLE_RAM are readable, and `fwrite` writes what it is given.
pub record IsLogged (f : Files) : Type 0 where
  pub in_sample : IsReadable (content f.sample)
  pub in_ram : IsReadable (content f.sample_ram)
  pub whole_writes : (bytes : List ℕ) → f.fwrite bytes ≡ bytes

AllRecords-append : (rs bs : List (List ℕ)) → AllRecords rs → AllRecords bs → AllRecords (rs ++ bs)
AllRecords-append [] bs p q = q
AllRecords-append (a ∷ rs) bs p q = (p.0, AllRecords-append rs bs p.1 q)

concat-append : (rs bs : List (List ℕ)) → concat (rs ++ bs) ≡ concat rs ++ concat bs
concat-append [] bs = refl
concat-append (a ∷ rs) bs =
    ap (λ t. a ++ t) (concat-append rs bs) ∙ sym (append_assoc a (concat rs) (concat bs))

nothing-IsReadable : IsReadable []
nothing-IsReadable = record { records = []; all_records = tt; whole = refl }

append-IsReadable : (xs ys : List ℕ) → IsReadable xs → IsReadable ys → IsReadable (xs ++ ys)
append-IsReadable xs ys p q = record {
  records = p.records ++ q.records;
  all_records = AllRecords-append p.records q.records p.all_records q.all_records;
  whole = rw (p.whole, q.whole) (sym (concat-append p.records q.records));
}

one-IsReadable : (b : List ℕ) → IsRecord b → IsReadable b
one-IsReadable b r = record { records = b ∷ []; all_records = (r, tt); whole = sym (append-nil b) }

pub log-IsLogged : (b : List ℕ) (f : Files) → IsRecord b → IsLogged f → IsLogged (log b f)
unfolding write_to_file
log-IsLogged b f r l = by_tests f.writable f.ftp_uploading
  where
    grown :
        (file : Option (List ℕ))
        → IsReadable (content file)
        → IsReadable (content file ++ f.fwrite b)
    grown file p = rw (l.whole_writes b) (append-IsReadable (content file) b p (one-IsReadable b r))

    by_tests :
        (writable uploading : Bool)
        → IsLogged
            (if◌then◌else◌ {A = Files × Bool} writable
              (if uploading
                then (record f { sample_ram = some (content f.sample_ram ++ f.fwrite b) }, true)
                else (record f { sample = some (content f.sample ++ f.fwrite b) }, true))
              (f, false)).0
    by_tests true true = record {
      in_sample = l.in_sample;
      in_ram = grown f.sample_ram l.in_ram;
      whole_writes = l.whole_writes;
    }
    by_tests true false = record {
      in_sample = grown f.sample l.in_sample;
      in_ram = l.in_ram;
      whole_writes = l.whole_writes;
    }
    by_tests false uploading = l

pub log_option-IsLogged :
    (o : Option (List ℕ)) (f : Files)
    → ((b : List ℕ) → o ≡ some b → IsRecord b)
    → IsLogged f
    → IsLogged (log_option o f)
log_option-IsLogged none f r l = l
log_option-IsLogged (some b) f r l = log-IsLogged b f (r b refl) l

pub set_upload-IsLogged :
    (upload : Option (List ℕ)) (f : Files) → IsLogged f → IsLogged (record f { upload = upload })
set_upload-IsLogged upload f l = record {
  in_sample = l.in_sample;
  in_ram = l.in_ram;
  whole_writes = l.whole_writes;
}

pub set_uploading-IsLogged :
    (uploading : Bool) (f : Files) → IsLogged f → IsLogged (record f { ftp_uploading = uploading })
set_uploading-IsLogged uploading f l = record {
  in_sample = l.in_sample;
  in_ram = l.in_ram;
  whole_writes = l.whole_writes;
}

pub if-IsLogged :
    (c : Bool) (f f' : Files) → IsLogged f → IsLogged f' → IsLogged (if c then f else f')
if-IsLogged true f f' p q = p
if-IsLogged false f f' p q = q

pub remove_file_sample-IsLogged : (f : Files) → IsLogged f → IsLogged (remove_file_sample f)
unfolding remove_file_sample
remove_file_sample-IsLogged f l =
    if-IsLogged f.writable _ _
      (record { in_sample = nothing-IsReadable; in_ram = l.in_ram; whole_writes = l.whole_writes })
      l

pub remove_ram-IsLogged : (f : Files) → IsLogged f → IsLogged (remove_ram f)
unfolding remove_ram
remove_ram-IsLogged f l =
    if-IsLogged f.writable _ _
      (record {
        in_sample = l.in_sample;
        in_ram = nothing-IsReadable;
        whole_writes = l.whole_writes;
      })
      l

pub append_ram-IsLogged : (f : Files) → IsLogged f → IsLogged (append_ram f)
unfolding append_ram
append_ram-IsLogged f l = by_test f.writable
  where
    by_test :
        (writable : Bool)
        → IsLogged (
            if writable
            then record f { sample = some (content f.sample ++ content f.sample_ram) }
            else f)
    by_test true = record {
      in_sample = append-IsReadable (content f.sample) (content f.sample_ram) l.in_sample l.in_ram;
      in_ram = l.in_ram;
      whole_writes = l.whole_writes;
    }
    by_test false = l
