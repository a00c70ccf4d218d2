-- ===== src/Modem/Exchange/Ask.antt =====
-- `SendModemCmdR` of sw/modem.c, and `ModemSignal` and `ModemOperator` with the question that they
-- ask. Unlike `ModemRx` it looks at the first reply only. What it returns points into a local array
-- that is gone by then: `dead` is what the caller finds where the text was.
use ri_mms_linux.Prelude.{
  ℕ, zero, suc, List, [], ◌∷◌, ◌++◌, Option, none, length, take, leb, codes, c_string, strstr,
  if◌then◌else◌,
}
use mathlib.Core.Option
use ri_mms_linux.Modem.{Modem}
use ri_mms_linux.Modem.Reply.{modem_signal, modem_operator}
use ri_mms_linux.Modem.Exchange.{Line, read_room, rx_rounds}

-- The loop, as in `modem_rx`.
unfoldable first_reply : ℕ → List ℕ → List ℕ → List (List ℕ) → Option (List ℕ)
first_reply zero word waiting arrivals = none
first_reply (suc n) word waiting [] =
    let later = first_reply n word waiting [] in
    if leb (length word) (length waiting)
    then strstr (c_string (take read_room waiting)) word
    else later
first_reply (suc n) word waiting (bytes ∷ arrivals) =
    let there = waiting ++ bytes in
    let later = first_reply n word there arrivals in
    if leb (length word) (length there)
    then strstr (c_string (take read_room there)) word
    else later

-- With a command and a word; no live code leaves one out.
unfoldable send_modem_cmd_r : Line → (List ℕ → List ℕ) → List ℕ → List ℕ → Option (List ℕ)
send_modem_cmd_r line dead cmd response =
    if line.writes cmd
    then Option.map dead (first_reply rx_rounds response (line.waiting cmd) (line.arrivals cmd))
    else none

abbrev csq : List ℕ
csq = codes "AT+CSQ\r"

abbrev cops : List ℕ
cops = codes "AT+COPS?\r"

unfoldable ask_signal : Line → (List ℕ → List ℕ) → (List ℕ → ℕ) → Modem → Modem
ask_signal line dead atoi m = modem_signal atoi (send_modem_cmd_r line dead csq (codes "+CSQ:")) m

unfoldable ask_operator : Line → (List ℕ → List ℕ) → Modem → Modem
ask_operator line dead m = modem_operator (send_modem_cmd_r line dead cops (codes "+COPS:")) m
