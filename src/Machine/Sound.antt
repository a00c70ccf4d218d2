-- ===== src/Machine/Sound.antt =====
-- What holds of the program whatever its threads do.
use ri_mms_linux.Prelude.{ℕ, ◌≡◌, refl, sym, ◌∙◌, arith, Bool, true, false, List, length}
use mathlib.Core.Path.{subst}
use ri_mms_linux.Prelude.Int.{ℤ}
use ri_mms_linux.Radio.Receiver.Invariant.{parser_total}
use ri_mms_linux.Board.{Floats, Pins, Board, gest_switch}
use ri_mms_linux.Board.Switch.{turn-Kept}
use ri_mms_linux.Board.Charge.{IsBoard, io_turn-IsBoard}
use ri_mms_linux.Net.{Deed}
use ri_mms_linux.Gateway.{Gateway, World, Instant}
use ri_mms_linux.Command.{Parsed, parameters, out_of_bounds, parser_command}
use ri_mms_linux.Command.Reply.{Reply, Executed, executed}
use ri_mms_linux.Command.Exec.{run_command, exec_command}
use ri_mms_linux.Command.Exec.Logged.{Leaves, leaves, undefined_ends, settled-Leaves, Logged}
use ri_mms_linux.Command.Exec.Sound.{Sound, same-Sound, exec_command-Sound}
use ri_mms_linux.System.{Step, starts, parses, commands, uploads, upload_fails, modem_runs}
use ri_mms_linux.System.Readable.{Step-Logged, run_command-Logged, Leaves-Logged}
use ri_mms_linux.Machine.{
  Machine, Signal, sigint, sighup, sigstop, sigkill, sigterm, sigalrm, other_signal, clear_flagexit,
  signal_handler, board_of, io_step, Serves, served, serves_command, serves_other, Tick, calls,
  web_writes, shm_waits, shm_gives_up, shm_runs, net_turns, io_turns, signalled, Runs, no_tick,
  then_tick,
}

module _ {S : Type 0} (world : World S) where
  run_command-Sound :
      (at : Instant) (cmd : List ℕ) (g : Gateway S)
      → Sound g
      → Leaves Sound (run_command world at cmd g)
  unfolding run_command
  run_command-Sound at cmd g v = settled-Leaves Sound _ (by_parse (parser_command cmd))
    where
      by_parse :
          (p : Parsed)
          → Leaves Sound (elim p [
            | parameters params ↦ exec_command world at params g
            | out_of_bounds ↦ Executed.undefined
          ])
      by_parse (parameters params) = exec_command-Sound world at params g v
      by_parse out_of_bounds = undefined_ends

  Leaves-Sound :
      {x : Executed S} (code : ℤ) (reply : Reply) (g : Gateway S)
      → x ≡ executed code reply g
      → Leaves Sound x
      → Sound g
  Leaves-Sound code reply g e l = executed_state (subst (Leaves Sound) e l)
    where
      executed_state : Leaves Sound (executed code reply g) → Sound g
      executed_state (leaves _ _ _ p) = p

  Step-Sound : (g g' : Gateway S) → Step world g g' → Sound g → Sound g'
  Step-Sound g _ (starts at) v = same-Sound g _ v refl refl refl refl refl refl refl
  Step-Sound g _ (parses m cal stack bytes) v = record {
    receiver = (parser_total m cal stack bytes g.radio v.receiver).0;
    ending = v.ending;
  }
  Step-Sound g g' (commands at cmd code reply _ sized e) v =
      Leaves-Sound code reply g' e (run_command-Sound at cmd g v)
  Step-Sound g _ (uploads libs ftp call u during e) v =
      same-Sound g _ v refl refl refl refl refl refl refl
  Step-Sound g _ (upload_fails libs ftp call u during e) v =
      same-Sound g _ v refl refl refl refl refl refl refl
  Step-Sound g _ (modem_runs atoi seen _ _) v = same-Sound g _ v refl refl refl refl refl refl refl

module _ {F : Type 0} where
  gest_switch_ending :
      (pressed : Bool) (b : Board F)
      → (b.flagexit ≡ true → (b.flagrebootsystem ≡ false) × (b.flagpoweroffsystem ≡ false))
      → (gest_switch pressed b).flagexit ≡ true
      → ((gest_switch pressed b).flagrebootsystem ≡ false)
        × ((gest_switch pressed b).flagpoweroffsystem ≡ false)
  unfolding gest_switch
  gest_switch_ending pressed b before on = ground (arith, on, before)

-- The receiver, the flags, the files and the locals of `thread_io`.
pub record IsSound {S F : Type 0} (m : Machine S F) : Type 0 where
  pub gateway : Sound m.gateway
  pub logged : Logged m.gateway
  pub board : IsBoard m.board

module _ {S F : Type 0} (world : World S) (fl : Floats F) where
  io_step-IsSound :
      (pins : Pins) (m : Machine S F)
      → IsSound m
      → (io_step world fl pins m).board.display.overrun ≡ false
      → IsSound (io_step world fl pins m)
  unfolding io_step
  io_step-IsSound pins m v within =
      let b : Board F = board_of m in
      let kept = turn-Kept fl pins b in
      let held : IsBoard b = record {
        counted = v.board.counted;
        charging = v.board.charging;
        shown = v.board.shown;
      } in
      record {
        gateway = record {
          receiver = v.gateway.receiver;
          ending = λ on.
              let (r, p) =
                gest_switch_ending pins.pressed b v.gateway.ending (sym kept.flagexit ∙ on) in
              (kept.flagreboot ∙ r, kept.flagpoweroff ∙ p);
        };
        logged = v.logged;
        board = io_turn-IsBoard fl pins b held within;
      }

  Serves-Sound :
      (at : Instant) (deeds : List Deed) (g g' : Gateway S)
      → length at.stack ≡ 168
      → Serves world fl at deeds g g'
      → Sound g × Logged g
      → Sound g' × Logged g'
  Serves-Sound at _ g _ sized (served _) v = v
  Serves-Sound at _ g g' sized (serves_command cmd deeds code reply _ h _ e rest) (v, l) =
      Serves-Sound at deeds h g' sized rest (
        Leaves-Sound world code reply h e (run_command-Sound world at cmd g v),
        Leaves-Logged world code reply h e (run_command-Logged world at cmd g sized l),
      )
  Serves-Sound at _ g g' sized (serves_other deed deeds _ _ other rest) v =
      Serves-Sound at deeds g g' sized rest v

  cleared-IsSound : (m : Machine S F) → IsSound m → IsSound (clear_flagexit m)
  cleared-IsSound m v = record {
    gateway = record { receiver = v.gateway.receiver; ending = λ on. cc };
    logged = v.logged;
    board = v.board;
  }

  signal_handler-IsSound :
      (signal : Signal) (m : Machine S F) → IsSound m → IsSound (signal_handler signal m).1
  unfolding signal_handler
  signal_handler-IsSound sigint m v = cleared-IsSound m v
  signal_handler-IsSound sighup m v = cleared-IsSound m v
  signal_handler-IsSound sigstop m v = cleared-IsSound m v
  signal_handler-IsSound sigkill m v = cleared-IsSound m v
  signal_handler-IsSound sigterm m v = cleared-IsSound m v
  signal_handler-IsSound sigalrm m v = v
  signal_handler-IsSound other_signal m v = v

  Tick-IsSound : (m m' : Machine S F) → Tick world fl m m' → IsSound m → IsSound m'
  Tick-IsSound m _ (calls g s) v = record {
    gateway = Step-Sound world m.gateway g s v.gateway;
    logged = Step-Logged world m.gateway g s v.logged;
    board = v.board;
  }
  Tick-IsSound m _ (web_writes cells sized) v = record {
    gateway = v.gateway;
    logged = v.logged;
    board = v.board;
  }
  Tick-IsSound m _ (shm_waits beyond t e) v = record {
    gateway = v.gateway;
    logged = v.logged;
    board = v.board;
  }
  Tick-IsSound m _ (shm_gives_up beyond t e) v = record {
    gateway = v.gateway;
    logged = v.logged;
    board = v.board;
  }
  Tick-IsSound m _ (shm_runs at beyond cmd t code reply g sized e e' _) v = record {
    gateway =
        Leaves-Sound world code reply g e' (run_command-Sound world at cmd m.gateway v.gateway);
    logged =
        Leaves-Logged world code reply g e'
          (run_command-Logged world at cmd m.gateway sized v.logged);
    board = v.board;
  }
  Tick-IsSound m _ (net_turns at seen net deeds g sized online e s) v =
      let after = Serves-Sound at deeds m.gateway g sized s (v.gateway, v.logged) in
      record { gateway = after.0; logged = after.1; board = v.board }
  Tick-IsSound m _ (io_turns pins within) v = io_step-IsSound pins m v within
  Tick-IsSound m _ (signalled signal) v = signal_handler-IsSound signal m v

  -- A program that is in a sound state stays in one through any calls of its threads, any signals
  -- and anything that the web pages, the network, the sensors and the board give, in any order: the
  -- receiver is well formed, the two sample files are whole records, the battery is in charge only
  -- with the mains present, the display's text is well formed, and while the threads are told to go
  -- on neither a reboot nor a shutdown has been asked for.
  pub Runs-IsSound : (m m' : Machine S F) → Runs world fl m m' → IsSound m → IsSound m'
  Runs-IsSound m _ no_tick v = v
  Runs-IsSound m _ (then_tick m' m'' r t) v = Tick-IsSound m' m'' t (Runs-IsSound m m' r v)
