-- ===== src/Modem/Exchange.antt =====
-- `ModemRx`, `SendModemCmd` and `InitModem` of sw/modem.c: a command is written to the modem and its
-- reply awaited. What arrives before each look at the port is an argument.
pub mod Replies
pub mod Ask
use ri_mms_linux.Prelude.{
  ℕ, zero, suc, Bool, true, false, ◌&&◌, ◌||◌, List, [], ◌∷◌, ◌++◌, length, take, drop, leb, ◌==◌,
  codes, c_string, is_prefix, if◌then◌else◌,
}
use ri_mms_linux.Prelude.Int.{ℤ, pos, negsuc}
use ri_mms_linux.Modem.{Modem}
use ri_mms_linux.Modem.Reply.{no_operator}

-- `strstr(text, word)!=NULL`, of the characters before the zero
abbrev pub occurs : List ℕ → List ℕ → Bool
occurs word [] = is_prefix word []
occurs word (c ∷ text) = is_prefix word (c ∷ text) || occurs word text

-- `read(facm,temp,1024)`
abbrev pub read_room : ℕ
read_room = 1024

-- The loop of `ModemRx`: `waiting` has not been read yet, `arrivals` is what comes before each of the
-- next rounds. What has been read and does not hold the word is forgotten.
unfoldable pub modem_rx : ℕ → List ℕ → List ℕ → List (List ℕ) → Bool
modem_rx zero word waiting arrivals = false
modem_rx (suc n) word waiting [] =
    let kept = modem_rx n word waiting [] in
    let after = modem_rx n word (drop read_room waiting) [] in
    if leb (length word) (length waiting)
    then (if occurs word (c_string (take read_room waiting)) then true else after)
    else kept
modem_rx (suc n) word waiting (bytes ∷ arrivals) =
    let there = waiting ++ bytes in
    let kept = modem_rx n word there arrivals in
    let after = modem_rx n word (drop read_room there) arrivals in
    if leb (length word) (length there)
    then (if occurs word (c_string (take read_room there)) then true else after)
    else kept

-- `do … while(i++<100)`
abbrev pub rx_rounds : ℕ
rx_rounds = 101

-- What `write` and the port do for a command.
pub record Line : Type 0 where
  pub writes : List ℕ → Bool
  pub waiting : List ℕ → List ℕ
  pub arrivals : List ℕ → List (List ℕ)

unfoldable pub send_modem_cmd : Line → List ℕ → List ℕ → Bool
send_modem_cmd line cmd response =
    if line.writes cmd
    then modem_rx rx_rounds response (line.waiting cmd) (line.arrivals cmd)
    else false

-- The commands of `InitModem` and the words awaited; `"\r"` ends a command.
abbrev pub init_commands : List (List ℕ × List ℕ)
init_commands =
    (codes "ATZ" ++ (13 ∷ []), codes "OK")
    ∷ (codes "AT+CPIN?" ++ (13 ∷ []), codes "READY")
    ∷ (codes "AT+CMGF=1" ++ (13 ∷ []), codes "OK")
    ∷ (codes "AT+CLIP=1" ++ (13 ∷ []), codes "OK")
    ∷ (codes "AT+CSQ" ++ (13 ∷ []), codes "+CSQ")
    ∷ []

-- One command after the other, up to the first that is not answered.
unfoldable pub send_all : Line → List (List ℕ × List ℕ) → Bool
send_all line [] = true
send_all line ((cmd, response) ∷ commands) =
    let rest = send_all line commands in if send_modem_cmd line cmd response then rest else false

-- `InitModem`, with whether the port can be opened: `open_modem` returns -2 or a descriptor.
unfoldable pub init_modem : Line → Bool → ℤ → Modem → ℤ × Modem
init_modem line opens clock m =
    if opens
    then (let found = record m { present = true } in
        if send_all line init_commands
        then (pos 0, record found { operatorname = no_operator; signal = 0; timergest = clock })
        else (negsuc 0, found))
    else (pos 0, record m { present = false })
