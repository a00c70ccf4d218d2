-- ===== src/Command/Status.antt =====
-- `GetAppStatus`, `GetMemStatus` and `GetDiskStatus` of sw/command.c: a shell command writes a text
-- to a file, and `LoadFile` of sw/rimms.c reads it. The three differ in their shell commands only.
use ri_mms_linux.Prelude.{
  ℕ, ◌≡◌, refl, ap, true, false, List, [], ◌∷◌, ◌++◌, Option, none, some, length, c_string, ◌==◌,
}
use ri_mms_linux.Archive.{Libs, load_file}

-- What the shell command has written, `none` if there is no file, and what stands in memory behind
-- the buffer that `LoadFile` gives.
pub record Report : Type 0 where
  pub written : Option (List ℕ)
  pub beyond : List ℕ

-- What `sprintf` then prints for `%s`: `LoadFile` puts no zero behind the text. `none` is a null
-- pointer.
unfoldable pub get_status : Libs → Report → Option (List ℕ)
get_status libs report = elim (load_file libs report.written) [
  | none ↦ none
  | some bytes ↦ some (c_string (bytes ++ report.beyond))
]

abbrev NoZero : List ℕ → Type 0
NoZero [] = Unit {0}
NoZero (c ∷ text) = (c == 0 ≡ false) × NoZero text

c_string-append :
    (text beyond : List ℕ) → NoZero text → c_string (text ++ beyond) ≡ text ++ c_string beyond
c_string-append [] beyond no_zero = refl
c_string-append (c ∷ text) beyond (other, no_zero) =
    rw other (ap (λ t. c ∷ t) (c_string-append text beyond no_zero))

-- With memory given, a text without zeros is printed with all that stands behind its buffer up to the
-- next zero.
get_status_leaks :
    (libs : Libs) (text beyond : List ℕ)
    → libs.calloc (length text) ≡ true
    → NoZero text
    → get_status libs (record { written = some text; beyond = beyond })
      ≡ some (text ++ c_string beyond)
unfolding get_status load_file
get_status_leaks libs text beyond given no_zero =
    rw (given, get_status, load_file) (ap some (c_string-append text beyond no_zero))
