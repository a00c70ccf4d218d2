-- ===== src/Net/Lines.antt =====
-- A command in a datagram, and a line that has gone down.
use ri_mms_linux.Prelude.{
  c_string, ℕ, ◌≡◌, refl, ap, ◌∙◌, arith, Bool, true, false, List, [], ◌∷◌, ◌++◌, append_assoc,
  some, ◌==◌, if◌then◌else◌,
}
use ri_mms_linux.Prelude.Int.{pos, ltb_ℤ}
use ri_mms_linux.Command.{is_separator, is_end, parse_from, parser_command}
use ri_mms_linux.Net.{Net, Deed, closed, sends_reply, runs, Seen, over_start, receive}

-- Neither a zero nor an end of line.
abbrev pub IsLine : List ℕ → Type 0
IsLine [] = Unit
IsLine (c ∷ text) = ((c == 0) ≡ false) × (is_end c ≡ false) × IsLine text

-- The end of a line ends the command, whatever stands behind it.
parse_from-c_string :
    (text : List ℕ) (e : ℕ) (rest : List ℕ) (params : List (List ℕ)) (word : List ℕ)
    → IsLine text
    → is_end e ≡ true
    → parse_from (c_string (text ++ (e ∷ rest))) params word ≡ parse_from text params word
unfolding parse_from
parse_from-c_string [] e rest params word line ends =
    let not_zero : (e == 0) ≡ false = ground (arith, ends) in
    let no_separator : is_separator e ≡ false = ground (arith, ends) in
    rw not_zero (rw no_separator (rw ends refl))
parse_from-c_string (c ∷ text) e rest params word (not_zero, no_end, line) ends = rw not_zero (
    rw
      (
        parse_from-c_string text e rest (params ++ (word ∷ [])) [] line ends,
        parse_from-c_string text e rest params (word ++ (c ∷ [])) line ends,
      )
      refl)

-- A datagram with a line is run as that line: what an earlier, longer datagram has left in
-- `rxbuff`, which `GestRiMMSNet` neither clears nor ends with a zero, and what follows the end of
-- the line in this one, make no difference to the parameters.
pub receive-line :
    (seen : Seen) (n : Net) (text more : List ℕ) (e : ℕ)
    → seen.received ≡ some (text ++ (e ∷ more))
    → IsLine text
    → is_end e ≡ true
    → (cmd : List ℕ) × (deeds : List Deed) × ((receive seen n).1 ≡ runs cmd ∷ deeds)
      × (parser_command cmd ≡ parser_command text)
unfolding receive parser_command
receive-line seen n text more e got line ends =
    rw (got, receive) (by_reply (ltb_ℤ seen.reply_sent (pos 0)))
  where
    rx : List ℕ
    rx = over_start (text ++ (e ∷ more)) n.rxbuff

    same : parse_from (c_string rx) [] [] ≡ parse_from text [] []
    same =
        ap (λ t. parse_from (c_string t) [] []) (append_assoc text (e ∷ more) _)
        ∙ parse_from-c_string text e _ [] [] line ends

    by_reply :
        (fails : Bool)
        → (cmd : List ℕ) × (deeds : List Deed) × ((if◌then◌else◌ {A = Net × List Deed} fails
              (
                record n { timerconnect = seen.clock; rxbuff = rx; status = 0 },
                runs (c_string rx) ∷ sends_reply ∷ closed ∷ [],
              )
              (
                record n { timerconnect = seen.clock; rxbuff = rx },
                runs (c_string rx) ∷ sends_reply ∷ [],
              )).1
            ≡ runs cmd ∷ deeds)
          × (parse_from cmd [] [] ≡ parse_from text [] [])
    by_reply true = (c_string rx, _, refl, same)
    by_reply false = (c_string rx, _, refl, same)
