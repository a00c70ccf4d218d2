-- ===== src/Lib.antt =====
-- A model of the program of RiMMS-Linux, a gateway for radio sensors: it receives measures from the
-- sensors, logs them in a sample file, watches limits, and uploads the file by FTP over a modem or a
-- LAN. All paths below are from the repository's root.
--
-- How the parts work together: `Parser` of sw/protocolrimms.c takes the bytes of the serial port out of
-- a ring buffer, and for each frame with a good checksum runs `ParserData` (store and log the samples),
-- `SendAckSensor` and `CheckSensorThresholds` (log alarms and ask for an early upload). What is logged
-- goes through the `Tag_` functions of sw/rimms.c to `WriteToFile`. `GestFtp` of the same file packs
-- the header and the samples with `CreateFileToUpload` and sends them once the period is over and
-- `GestModem` of sw/modem.c has brought the line up; records logged meanwhile go to a second file, which
-- is appended afterwards. Commands come from the web pages through shared memory (sw/sm.c) and from the
-- network; `ParserCommand` cuts them and `ExecCommand` runs them over the sensor table and the database,
-- which sw/db.c reads and writes through SQLite. The threads of sw/main.c call all this in turn.
--
-- The files:
--   Prelude     Boolean tests, C arrays as lists, signed integers, machine words and their bits.
--   Ring        `LoadDataRf` and `GetChar`, the ring buffer (sw/protocolrimms.c); Ring/Queue: as a queue.
--   Log         `WriteToFile` and the files (sw/rimms.c); Log/Tags: the records; Log/Stamp: the dates;
--               Log/Entries: reading the records back.
--   Device      the sensor table, `InitDevices`, the searches (sw/protocolrimms.c, sw/protocolrimms.h).
--   Radio       the rest of sw/protocolrimms.c. Radio/State: its globals; Radio/Receiver: `Parser`;
--               Radio/Payload: `ParserData`; Radio/Sth11: `calc_sth11`; Radio/Ack: `SendAckSensor`;
--               Radio/Thresholds: `CheckSensorThresholds`; Radio/Start: `InitSerial`.
--   Archive     `LoadFile`, `Flip`, `CRC32FromStream`, `CreateFileToUpload` (sw/rimms.c).
--   Upload      `InitRiMMS`, `ForceUpload`, `GestFtp` (sw/rimms.c).
--   Modem       sw/modem.c. Modem/Reply: the words of a reply; Modem/Remote: `RemoteConnection`;
--               Modem/Exchange: `ModemRx`, `SendModemCmd`, `InitModem`; Modem/Exchange/Ask:
--               `SendModemCmdR`, `ModemSignal`, `ModemOperator`; Modem/Gest: `GestModem`.
--   Params      `ReadParamFile` (sw/utility.c), `GetRemoteConnection` (sw/modem.c), `GetMacAddress`
--               (sw/main.c).
--   Display     sw/display.c: the queue of texts, `WriteDisplayBuf` and `ReadDisplayBuf`; Display/Panel:
--               `WriteToDisplay`; Display/Gest: `WriteStatus`, `WriteTime`, `GestDisplay`; Display/Write:
--               `WriteDisplay`, the keyboard (sw/keyboard.c) and the last texts of `main`;
--               Display/Expander: `lcdinit`, `Backlight`, `GetKey`.
--   Net         `GestRiMMSNet` (sw/rimmsnet.c).
--   Db          sw/db.c: the row callback, parameters and sensors in the database; Db/Tables: its
--               statements as data, and `struct DBTABLE`.
--   Gateway     all globals together; `PowerOff`, `RebootSystem`, `InitDevices` with its loading.
--   Command     sw/command.c: the cutting of a command into parameters by `ParserCommand`;
--               Command/Reply: the replies; Command/System, Command/Sensors: the commands;
--               Command/Status: `GetAppStatus`, `GetMemStatus`, `GetDiskStatus`;
--               Command/Exec: `ExecCommand`.
--   Shm         sw/sm.c: `OpenShadowMemory`, `GestSMComunication`, `WriteSM`, `CloseShadowMemory`.
--   System      the threads of sw/main.c but `thread_io` as steps over the globals.
--   Board       the loop of `thread_io` (sw/main.c): the switch, the charger and the voltages.
--   Shutdown    the end of `main` (sw/main.c): the threads are waited for, cancelled, joined.
--   Config      `LoadConfig` (sw/main.c).
--   CommandLine `ParseCommandLine`, `killFromPidFile` (sw/main.c).
--   Startup     `main` up to its threads (sw/main.c), one stage for each initialisation;
--               Startup/Sound: what then holds.
--   Machine     all globals and locals; the four threads, the signals and the web pages as ticks.
--   Tests       the theorems at concrete inputs.
--
-- Each file or global variable of the program is a field of a record (Files, Radio, Device, Modem,
-- Uploader, Store, Segment, and Gateway for all of them), each function a function from the record
-- to the record. An `int` or `long` is an integer ℤ, with its wrap-around written out where the code
-- relies on it; a WORD_D or DWORD_D is its bit pattern. The target is 32-bit ARM, where a `long` has
-- 32 bits. One call of a handler reads each clock once.
--
-- Loops: `Parser` and the payload loops run over lists or for a number of rounds that the code states;
-- the loop of `InitDevices` and the two loops of `RemoteConnection` have their counts as fuel, which is
-- the exact number of their rounds; `ReadDisplayBuf` stops after 66; `GestSMComunication` has at most
-- 2049 rounds, one for each cell and one behind them; the wait for a thread has at most eleven, and the
-- wait for a reply of the modem 101. No definition gives up for lack of fuel.
--
-- Parameters: zlib's `compress` and `calloc` (Libs), the FTP client, SQLite (Sqlite, with its
-- statements as the data type Sql), the C library's calendar (Calendar), its printing and `atoi`,
-- the texts that shell commands and the board deliver (World), the arithmetic of `float` (Floats),
-- the contents of uninitialised or dead locals (Stack, Instant, and `dead` of Modem/Exchange/Ask), and
-- how much of a record `fwrite` writes and whether files can be written and removed (Files). The replies
-- of the modem and the state of the line are arguments.
--
-- Writes outside an array, which the code does not check for, leave undefined what follows. The
-- outcome then is a value of its own (`undefined`, `overrun`, `overruns`, `faults`, `none`), or a
-- flag (`overrun` of Store and Display) by which the whole call has no state after it: a command
-- by `settled`, `InitDevices` by `reload_devices`, `LoadConfig` by `boot_config`, and a turn of
-- `thread_io` as a tick of Machine. In a run the modem's replies fit the arrays of words of
-- `ModemSignal` and `ModemOperator`, and a reply that `WriteSM` prints fits the segment.
--
-- Not modelled: two calls that interleave in the middle (a tick of Machine is one whole call, and a
-- turn of `thread_io` is one tick), the LEDs, what is logged, `daemonize`; opening and closing ports,
-- buses and sockets, and the registers of the board, which are I/O (sw/gpioFastLib.c); sw/udpcomm.c,
-- which no other file calls; the copies of SQLite, zlib and an FTP client.
pub mod Prelude
pub mod Ring
pub mod Log
pub mod Device
pub mod Radio
pub mod Archive
pub mod Board
pub mod Shutdown
pub mod CommandLine
pub mod Machine
pub mod Startup
pub mod Upload
pub mod Config
pub mod Db
pub mod Gateway
pub mod Command
pub mod Display
pub mod Shm
pub mod Net
pub mod System
pub mod Tests
pub mod Params
pub mod Modem
