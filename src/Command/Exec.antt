-- ===== src/Command/Exec.antt =====
-- `ExecCommand` of sw/command.c, and `ParserCommand` as a whole.
pub mod Logged
pub mod Sound
pub mod Queries
pub mod Adding
use ri_mms_linux.Prelude.{ℕ, List, [], ◌∷◌, if◌then◌else◌}
use ri_mms_linux.Prelude.Int.{pos, negsuc}
use ri_mms_linux.Gateway.{Gateway, World, Instant}
use ri_mms_linux.Command.{parameters, out_of_bounds, parser_command}
use ri_mms_linux.Command.Reply.{
  ping_ok, ver_ok, error, nothing, Executed, executed, undefined, reply_fits, response_room, is,
}
use ri_mms_linux.Command.System.{exec_modem, exec_param, exec_system}
use ri_mms_linux.Command.Sensors.{exec_sensor}

module _ {S : Type 0} where
  -- A write outside an array of the database's or behind `commandresponse`: C leaves undefined what
  -- follows, the result included.
  unfoldable pub settled : Executed S → Executed S
  settled (executed code reply g) =
      if g.store.overrun
      then undefined
      else if reply_fits response_room reply
      then executed code reply g
      else undefined
  settled undefined = undefined

module _ {S : Type 0} (world : World S) (at : Instant) where
  unfoldable pub exec_command : List (List ℕ) → Gateway S → Executed S
  exec_command [] g = executed (negsuc 0) nothing g
  exec_command (what ∷ rest) g =
      if is what "MODEM"
      then exec_modem world at g
      else if is what "PARAM"
      then exec_param world at (what ∷ rest) g
      else if is what "SENSOR"
      then exec_sensor world at (what ∷ rest) g
      else if is what "SYSTEM"
      then exec_system world at (what ∷ rest) g
      else if is what "PING"
      then executed (pos 0) ping_ok g
      else if is what "VER"
      then executed (pos 0) ver_ok g
      else executed (negsuc 1) error g

  -- `ParserCommand`, which does not look at the result of `ExecCommand`.
  unfoldable pub run_command : List ℕ → Gateway S → Executed S
  run_command cmd g = settled (elim (parser_command cmd) [
    | parameters params ↦ exec_command params g
    | out_of_bounds ↦ undefined
  ])
