-- ===== src/Modem/Gest/Kept.antt =====
-- What the questions to the modem and the dialling leave alone.
use ri_mms_linux.Prelude.{ℕ, zero, suc, ◌≡◌, refl, arith, Bool, true, List, Option, none, some}
use ri_mms_linux.Modem.{Modem, pon, poff, act}
use ri_mms_linux.Modem.Reply.{modem_signal, modem_operator}
use ri_mms_linux.Modem.Remote.{redial, dials, polls_per_dial, wait_online, remote_connection}
use ri_mms_linux.Modem.Gest.{Seen, ask_modem}

modem_signal-status :
    (atoi : List ℕ → ℕ) (r : Option (List ℕ)) (m : Modem)
    → (modem_signal atoi r m).status ≡ m.status
unfolding modem_signal
modem_signal-status atoi none m = refl
modem_signal-status atoi (some string) m = ground arith

modem_operator-status : (r : Option (List ℕ)) (m : Modem) → (modem_operator r m).status ≡ m.status
unfolding modem_operator
modem_operator-status none m = refl
modem_operator-status (some string) m = ground arith

pub ask_modem-status :
    (atoi : List ℕ → ℕ) (seen : Seen) (m : Modem) → (ask_modem atoi seen m).status ≡ m.status
unfolding ask_modem
ask_modem-status atoi seen m = ground (
  arith,
  modem_operator-status seen.cops (modem_signal atoi seen.csq (record m { timergest = seen.now })),
  modem_signal-status atoi seen.csq (record m { timergest = seen.now }),
)

redial-registered :
    (n : ℕ) (up : ℕ → Bool) (k : ℕ) (m : Modem) → (redial n up k m).0.registered ≡ m.registered
unfolding redial
redial-registered zero up k m = refl
redial-registered (suc n) up k m =
    ground
      (arith, redial-registered n up (wait_online polls_per_dial up k).1 (act poff (act pon m)))

pub remote_connection-registered :
    (up : ℕ → Bool) (m : Modem) → (remote_connection true up m).0.registered ≡ m.registered
unfolding remote_connection
remote_connection-registered up m = ground (arith, redial-registered dials up 1 m)
