-- ===== src/Machine.antt =====
-- The whole program at run time: the globals, the locals of its threads (sw/main.c), and a tick for
-- each call that a thread makes in its loop, for a signal, and for what the web pages write. A tick
-- is one call; ticks come in any order. What `WriteDisplayBuf` is given by other threads than
-- `thread_io`, and the text of a reply, are left out.
pub mod Sound
use ri_mms_linux.Prelude.{ℕ, Bool, true, false, ◌≡◌, ◌≢◌, List, [], ◌∷◌, length}
use ri_mms_linux.Prelude.Int.{ℤ, pos, negsuc}
use ri_mms_linux.Modem.{get_modem_status}
use ri_mms_linux.Shm.{Segment, waiting, command, given_up, shmsz, gest_sm_comunication}
use ri_mms_linux.Net.{Net, Deed, runs, Seen, gest_ri_mms_net}
use ri_mms_linux.Display.Write.{Keyboard}
use ri_mms_linux.Board.{Floats, Pins, Board, io_turn}
use ri_mms_linux.CommandLine.{Options}
use ri_mms_linux.Gateway.{Gateway, World, Instant}
use ri_mms_linux.Command.Reply.{Reply, executed, reply_fits}
use ri_mms_linux.Command.Exec.{run_command}
use ri_mms_linux.System.{Step}

pub record Machine (S F : Type 0) : Type 0 where
  pub gateway : Gateway S
  pub board : Board F
  pub segment : Segment
  pub net : Net
  pub keyboard : Keyboard
  pub options : Options

pub data Signal : Type 0 where
  sigint sighup sigstop sigkill sigterm sigalrm other_signal : Signal

module _ {S F : Type 0} where
  -- `data.flagexit=0`
  abbrev pub clear_flagexit : Machine S F → Machine S F
  clear_flagexit m = record m { gateway = record m.gateway { flagexit = false } }

  unfoldable pub signal_handler : Signal → Machine S F → ℤ × Machine S F
  signal_handler sigint m = (pos 0, clear_flagexit m)
  signal_handler sighup m = (pos 0, clear_flagexit m)
  signal_handler sigstop m = (pos 0, clear_flagexit m)
  signal_handler sigkill m = (pos 0, clear_flagexit m)
  signal_handler sigterm m = (pos 0, clear_flagexit m)
  signal_handler sigalrm m = (pos 0, m)
  signal_handler other_signal m = (negsuc 0, m)

  -- The flags that `thread_io` shares with the other threads are stored once.
  abbrev pub board_of : Machine S F → Board F
  board_of m = record m.board {
    flagexit = (m.gateway).flagexit;
    flagrebootsystem = (m.gateway).flagrebootsystem;
    flagpoweroffsystem = (m.gateway).flagpoweroffsystem;
  }

  abbrev pub put_board : Board F → Machine S F → Machine S F
  put_board b m = record m {
    board = b;
    gateway = record m.gateway {
      flagexit = b.flagexit;
      flagrebootsystem = b.flagrebootsystem;
      flagpoweroffsystem = b.flagpoweroffsystem;
    };
  }

module _ {S F : Type 0} (world : World S) (fl : Floats F) where
  unfoldable pub io_step : Pins → Machine S F → Machine S F
  io_step pins m = put_board (io_turn fl pins (board_of m)) m

  -- The commands among what `GestRiMMSNet` does, in order.
  pub data Serves (at : Instant) : List Deed → Gateway S → Gateway S → Type 0 where
    served : (g : Gateway S) → Serves at [] g g
    serves_command :
        (cmd : List ℕ) (deeds : List Deed) (code : ℤ) (reply : Reply) (g g' g'' : Gateway S)
        → run_command world at cmd g ≡ executed code reply g'
        → Serves at deeds g' g''
        → Serves at (runs cmd ∷ deeds) g g''
    serves_other :
        (deed : Deed) (deeds : List Deed) (g g' : Gateway S)
        → ((cmd : List ℕ) → deed ≢ runs cmd)
        → Serves at deeds g g'
        → Serves at (deed ∷ deeds) g g'

  pub data Tick (m : Machine S F) : Machine S F → Type 0 where
    calls : (g : Gateway S) → Step world m.gateway g → Tick m (record m { gateway = g })
    web_writes :
        (cells : List ℕ)
        → length cells ≡ shmsz
        → Tick m (record m { segment = record m.segment { shmrx = cells } })
    shm_waits :
        (beyond : ℕ) (t : Segment)
        → gest_sm_comunication beyond m.segment ≡ waiting t
        → Tick m (record m { segment = t })
    shm_gives_up :
        (beyond : ℕ) (t : Segment)
        → gest_sm_comunication beyond m.segment ≡ given_up t
        → Tick m (record m { segment = t })
    shm_runs :
        (at : Instant) (beyond : ℕ) (cmd : List ℕ) (t : Segment) (code : ℤ) (reply : Reply)
        (g : Gateway S)
        → length at.stack ≡ 168
        → gest_sm_comunication beyond m.segment ≡ command cmd t
        → run_command world at cmd m.gateway ≡ executed code reply g
        → reply_fits shmsz reply ≡ true
        → Tick m (record m { segment = t; gateway = g })
    net_turns :
        (at : Instant) (seen : Seen) (net : Net) (deeds : List Deed) (g : Gateway S)
        → length at.stack ≡ 168
        → seen.online ≡ get_modem_status (m.gateway).modem
        → gest_ri_mms_net seen m.net ≡ (net, deeds)
        → Serves at deeds m.gateway g
        → Tick m (record m { net = net; gateway = g })
    -- a turn that stays within the arrays of the display
    io_turns :
        (pins : Pins) → (io_step pins m).board.display.overrun ≡ false → Tick m (io_step pins m)
    signalled : (signal : Signal) → Tick m (signal_handler signal m).1

  pub data Runs (m : Machine S F) : Machine S F → Type 0 where
    no_tick : Runs m m
    then_tick : (m' m'' : Machine S F) → Runs m m' → Tick m' m'' → Runs m m''
