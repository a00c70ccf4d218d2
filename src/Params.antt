-- ===== src/Params.antt =====
-- `ReadParamFile` of sw/utility.c, which looks for a word in a text file and reads what follows the
-- next space, and the functions that ask it: `GetRemoteConnection` of sw/modem.c, `GetMacAddress`
-- of sw/main.c. A file is the list of its lines as `getline` gives them, each with its end of line;
-- `none` is a file that cannot be opened.
pub mod Values
use ri_mms_linux.Prelude.{
  ℕ, Bool, true, false, List, [], ◌∷◌, Option, none, some, length, drop, codes, c_string, strstr,
  strchr, cut_at,
}

-- A null pointer, a text, or an access through a null pointer.
pub data Param : Type 0 where
  null : Param
  value : List ℕ → Param
  faults : Param

-- `strchr(position,' ')+1`, up to the end of line. A `strchr` that finds nothing gives the address 1.
unfoldable pub param_after : List ℕ → Param
param_after position = elim (strchr position 32) [
  | none ↦ faults
  | some at ↦ value (cut_at 13 (cut_at 10 (drop 1 at)))
]

-- The loop over the lines: the first that has the word decides.
unfoldable pub read_lines : List ℕ → List (List ℕ) → Param
read_lines parametro [] = null
read_lines parametro (line ∷ lines) =
    let rest = read_lines parametro lines in
    elim (strstr (c_string line) parametro) [
      | none ↦ rest
      | some position ↦ param_after (drop (length parametro) position)
    ]

unfoldable pub read_param_file : List ℕ → Option (List (List ℕ)) → Param
unfolding read_lines
read_param_file parametro file = elim file [ none ↦ null | some lines ↦ read_lines parametro lines ]

-- `GetRemoteConnection`, from what `ifconfig ppp | grep inet` has written; `none` is a fault.
unfoldable pub get_remote_connection : Option (List (List ℕ)) → Option Bool
unfolding read_param_file
get_remote_connection file = elim (read_param_file (codes "inet addr") file) [
  | null ↦ some false
  | value param ↦ some true
  | faults ↦ none
]

-- `GetMacAddress`, from what `ifconfig wlan0` has written; `strcpy` of a null pointer faults.
unfoldable pub get_mac_address : Option (List (List ℕ)) → Option (List ℕ)
unfolding read_param_file
get_mac_address file = elim (read_param_file (codes "HWaddr ") file) [
  | null ↦ none
  | value param ↦ some param
  | faults ↦ none
]
