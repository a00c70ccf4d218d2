-- ===== src/Command/Reply.antt =====
-- What a call of `ExecCommand` of sw/command.c leaves: the text in `commandresponse`, a constructor
-- for each format, and the globals.
use Prim.Native.String.{String}
use ri_mms_linux.Prelude.{
  ℕ, ◌+◌, ◌*◌, Bool, true, Option, some, List, [], get_or, codes, same_text, length, ltb,
}
use ri_mms_linux.Prelude.Int.{ℤ}
use ri_mms_linux.Device.{Reading}
use ri_mms_linux.Gateway.{Gateway}

-- What follows the names of the command in the reply.
pub data Verdict : Type 0 where
  ok wrong dberr err errid paramerr : Verdict

-- One constructor for each format.
pub data Reply : Type 0 where
  -- MODEM: the operator, the signal and `GetModemStatus`
  modem_state : List ℕ → ℕ → Bool → Reply
  modem_notpresent : Reply
  param : Verdict → Reply
  sensor_list : List ℕ → Reply
  sensor_name : List ℕ → Reply
  name_refused : Verdict → Reply
  sensor_add sensor_upd sensor_rmv : Verdict → Reply
  sensor_get : Reading → Reply
  get_refused : Verdict → Reply
  sensor_err : Reply
  system_forceupdate : Reply
  system_getupdate : ℤ → ℤ → ℤ → Reply
  system_pwr : List ℕ → Reply
  system_reboot system_poweroff system_programreboot : Reply
  -- `none` is a null pointer given to `%s`
  status_app status_mem status_disk : Option (List ℕ) → Reply
  status_error : Reply
  system_name : List ℕ → Reply
  system_error : Reply
  ping_ok : Reply
  ver_ok : Reply
  error : Reply
  -- `commandresponse` as `ParserCommand` has cleared it
  nothing : Reply

-- Whether the reply and its zero fit an array of so many characters. The texts of the reports are the
-- only ones whose length the program does not bound; every other reply has less than 2048 characters.
abbrev pub reply_fits : ℕ → Reply → Bool
reply_fits room (status_app (some text)) = ltb (length text + 19) room
reply_fits room (status_mem (some text)) = ltb (length text + 19) room
reply_fits room (status_disk (some text)) = ltb (length text + 20) room
reply_fits room _ = true

-- `char commandresponse[COMMAND_LEN_PARAM*COMMAND_LEN_PARAM]`
abbrev pub response_room : ℕ
response_room = 128 * 128

-- The value returned, the reply and the globals, or a write outside an array, which C leaves
-- undefined.
pub data Executed (S : Type 0) : Type 0 where
  executed : ℤ → Reply → Gateway S → Executed S
  undefined : Executed S

-- `commandparser[i]`: `ParserCommand` clears the array first.
abbrev pub parameter : List (List ℕ) → ℕ → List ℕ
parameter params i = get_or params i []

abbrev pub is : List ℕ → String → Bool
is text word = same_text text (codes word)
