-- ===== src/Tests/Modems.antt =====
-- The modem at concrete inputs: one that gets online, a LAN, and a reply to `AT+COPS?`.
use ri_mms_linux.Prelude.{
  ℕ, ◌<◌, ◌≡◌, ◌↔◌, refl, true, List, [], ◌∷◌, ◌++◌, ◌≤◌, none, ◌==◌, codes, c_string, length,
  arith,
}
use ri_mms_linux.Prelude.Int.{pos}
use ri_mms_linux.Modem.{Status, ModemType}
use ri_mms_linux.Modem.Remote.{remote_connection}
use ri_mms_linux.Modem.Remote.Polls.{remote_connection_lem}
use ri_mms_linux.Modem.Exchange.{Line, occurs}
use ri_mms_linux.Modem.Exchange.Replies.{Answered}
use ri_mms_linux.Modem.Gest.{Seen, gest_modem}
use ri_mms_linux.Modem.Gest.Diagram.{may_follow, gest_modem-may_follow}
use ri_mms_linux.Tests.Fixtures.{modem}

-- The line comes up at the third poll.
abbrev seen : Seen
seen = record { now = pos 4000; csq = none; cops = none; up = λ i. i == 2 }

abbrev no_number : List ℕ → ℕ
no_number text = 0

gest_modem-may_follow_example :
    may_follow ModemType.usb Status.goonline (gest_modem no_number seen modem).status ≡ true
gest_modem-may_follow_example = gest_modem-may_follow no_number seen modem

remote_connection_lem_example :
    ((remote_connection true (λ i. i == 2) modem).1 ≡ true)
    ↔ ((i : ℕ) × (i < 97) × ((i == 2) ≡ true))
remote_connection_lem_example = remote_connection_lem (λ i. i == 2) modem

-- A modem that answers in the third round, with all that is awaited at once.
abbrev reply_text : List ℕ
reply_text = codes "OK READY +CSQ: 9" ++ (13 ∷ [])

abbrev pub line : Line
line = record {
  writes = λ cmd. true;
  waiting = λ cmd. [];
  arrivals = λ cmd. [] ∷ [] ∷ reply_text ∷ [];
}

line-Answered :
    (cmd word : List ℕ)
    → 0 < length word
    → length word ≤ length reply_text
    → occurs word (c_string reply_text) ≡ true
    → Answered line cmd word
line-Answered cmd word awaited long found = record {
  written = refl;
  none_waiting = refl;
  quiet = 2;
  reply = reply_text;
  more = [];
  arrived = refl;
  in_time = omega arith;
  awaited = awaited;
  long = long;
  fits = omega arith;
  found = found;
}
