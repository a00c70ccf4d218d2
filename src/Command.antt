-- ===== src/Command.antt =====
-- `ParserCommand` of sw/command.c up to the call of `ExecCommand`: a command is cut into the
-- parameters `commandparser[16][128]`. `cmd` is a C string, without its zero.
pub mod Parameters
pub mod Reply
pub mod Status
pub mod System
pub mod Sensors
pub mod Exec
use ri_mms_linux.Prelude.{
  ℕ, Bool, ◌&&◌, ◌||◌, List, [], ◌∷◌, ◌++◌, length, ltb, ◌==◌, if◌then◌else◌,
}

-- COMMAND_NUM_PARAM and COMMAND_LEN_PARAM
abbrev pub command_num_param : ℕ
command_num_param = 16

abbrev pub command_len_param : ℕ
command_len_param = 128

-- The parameters, or a write outside the array, which the code does not check for.
pub data Parsed : Type 0 where
  parameters : List (List ℕ) → Parsed
  out_of_bounds : Parsed

-- `;` and `,`
abbrev pub is_separator : ℕ → Bool
is_separator c = c == 59 || c == 44

-- `'\r'`, `'\n'`
abbrev pub is_end : ℕ → Bool
is_end c = c == 13 || c == 10

-- `commandparser[commandparser_index][commandparser_punt]` is a cell of the array.
abbrev pub in_bounds : List (List ℕ) → List ℕ → Bool
in_bounds params word = ltb (length params) command_num_param && ltb (length word) command_len_param

-- The loop, with the parameters before `commandparser_index` and the characters of the one at it.
unfoldable pub parse_from : List ℕ → List (List ℕ) → List ℕ → Parsed
parse_from [] params word =
    if in_bounds params word then parameters (params ++ (word ∷ [])) else out_of_bounds
parse_from (c ∷ cmd) params word =
    if in_bounds params word
    then (if is_separator c
        then parse_from cmd (params ++ (word ∷ [])) []
        else if is_end c
        then parameters (params ++ (word ∷ []))
        else parse_from cmd params (word ++ (c ∷ [])))
    else out_of_bounds

unfoldable pub parser_command : List ℕ → Parsed
parser_command cmd = parse_from cmd [] []
