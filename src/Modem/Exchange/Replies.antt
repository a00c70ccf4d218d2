-- ===== src/Modem/Exchange/Replies.antt =====
-- The replies that `ModemRx` finds.
use ri_mms_linux.Prelude.{
  ℕ, zero, suc, ◌≤◌, ◌<◌, ◌≡◌, refl, arith, true, false, List, [], ◌∷◌, ◌++◌, length, take, leb,
  c_string, replicate,
}
use ri_mms_linux.Prelude.Int.{ℤ, pos}
use ri_mms_linux.Modem.{Modem}
use ri_mms_linux.Modem.Reply.{no_operator}
use ri_mms_linux.Modem.Exchange.{
  occurs, read_room, modem_rx, rx_rounds, Line, send_modem_cmd, init_commands, send_all, init_modem,
}

take_all : (n : ℕ) (xs : List ℕ) → length xs ≤ n → take n xs ≡ xs
take_all zero [] h = refl
take_all zero (x ∷ xs) h = absurd (omega arith)
take_all (suc n) [] h = refl
take_all (suc n) (x ∷ xs) h = rw (take_all n xs (omega arith)) refl

-- A reply that comes whole, after at most as many quiet rounds as are left, and in at most 1024
-- bytes, is found wherever in it the awaited word stands.
modem_rx-whole :
    (n quiet : ℕ) (word reply : List ℕ) (more : List (List ℕ))
    → quiet < n
    → 0 < length word
    → length word ≤ length reply
    → length reply ≤ 1024
    → occurs word (c_string reply) ≡ true
    → modem_rx n word [] (replicate quiet [] ++ (reply ∷ more)) ≡ true
unfolding modem_rx
modem_rx-whole zero quiet word reply more h nonempty long short found = absurd (omega arith)
modem_rx-whole (suc n) zero word reply more h nonempty long short found =
    let enough : leb (length word) (length reply) ≡ true = ground arith in
    let whole : take read_room reply ≡ reply = take_all read_room reply short in
    rw enough (rw whole (rw found refl))
modem_rx-whole (suc n) (suc quiet) word reply more h nonempty long short found =
    let too_few : leb (length word) 0 ≡ false = ground arith in
    rw too_few (modem_rx-whole n quiet word reply more (omega arith) nonempty long short found)

-- The modem takes the command, has nothing waiting, and after at most a second of silence sends a
-- reply of at most 1024 bytes at once, in which the awaited word stands before the first zero.
pub record Answered (line : Line) (cmd word : List ℕ) : Type 0 where
  pub written : line.writes cmd ≡ true
  pub none_waiting : line.waiting cmd ≡ []
  pub quiet : ℕ
  pub reply : List ℕ
  pub more : List (List ℕ)
  pub arrived : line.arrivals cmd ≡ replicate quiet [] ++ (reply ∷ more)
  pub in_time : quiet ≤ 100
  pub awaited : 0 < length word
  pub long : length word ≤ length reply
  pub fits : length reply ≤ 1024
  pub found : occurs word (c_string reply) ≡ true

send_modem_cmd-Answered :
    (line : Line) (cmd word : List ℕ) → Answered line cmd word → send_modem_cmd line cmd word ≡ true
unfolding send_modem_cmd
send_modem_cmd-Answered line cmd word a =
    let in_rounds : a.quiet < rx_rounds = omega (arith, a.in_time) in
    rw a.written (
      rw a.none_waiting (
        rw a.arrived (
          modem_rx-whole rx_rounds a.quiet word a.reply a.more in_rounds a.awaited a.long a.fits
            a.found)))

unfoldable AllAnswered : Line → List (List ℕ × List ℕ) → Type 0
AllAnswered line [] = Unit
AllAnswered line ((cmd, word) ∷ commands) = Answered line cmd word × AllAnswered line commands

send_all-AllAnswered :
    (line : Line) (commands : List (List ℕ × List ℕ))
    → AllAnswered line commands
    → send_all line commands ≡ true
unfolding send_all AllAnswered
send_all-AllAnswered line [] all = refl
send_all-AllAnswered line ((cmd, word) ∷ commands) (a, all) =
    rw (send_modem_cmd-Answered line cmd word a) (send_all-AllAnswered line commands all)

-- `InitModem` on a modem that takes each of the five commands and answers it within a second, in one
-- piece of at most 1024 bytes that has the awaited word before its first zero, returns 0 with the
-- modem present, its operator `---`, its signal 0 and its timer started.
init_modem-AllAnswered :
    (line : Line) (clock : ℤ) (m : Modem)
    → AllAnswered line init_commands
    → init_modem line true clock m ≡ (
      pos 0,
      record m { present = true; operatorname = no_operator; signal = 0; timergest = clock },
    )
unfolding init_modem
init_modem-AllAnswered line clock m all = rw (send_all-AllAnswered line init_commands all) refl
