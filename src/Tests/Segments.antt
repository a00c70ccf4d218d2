-- ===== src/Tests/Segments.antt =====
-- The shared memory, the datagrams and the display at concrete inputs.
use ri_mms_linux.Prelude.{
  ℕ, zero, suc, ◌≡◌, refl, arith, true, some, List, [], ◌∷◌, ◌++◌, replicate, length-replicate,
  codes,
}
use ri_mms_linux.Prelude.Int.{pos}
use ri_mms_linux.Command.{parser_command}
use ri_mms_linux.Display.Panel.{write_to_display}
use ri_mms_linux.Display.Shows.{Screen, show, panel_of, write_to_display-shown}
use ri_mms_linux.Net.{Net, Seen, Deed, runs, receive}
use ri_mms_linux.Net.Lines.{receive-line}
use ri_mms_linux.Shm.{Segment, waiting, command, gest_sm_comunication}
use ri_mms_linux.Shm.Rounds.{AllText, at_text, zeros}
use ri_mms_linux.Shm.Delivery.{gest_sm_comunication-pieces, gest_sm_comunication_flooded}

-- `PI` and then `NG`.
gest_sm_comunication-pieces_example :
    (t : Segment) × (gest_sm_comunication 0
        (at_text [] (codes "PI" ++ (0 ∷ replicate 2045 0)) [] (replicate 2048 0))
      ≡ waiting t)
    × (t' : Segment) × (gest_sm_comunication 0
          (record t { shmrx = zeros (codes "PI") ++ (codes "NG" ++ (10 ∷ replicate 2043 0)) })
        ≡ command (codes "PI" ++ codes "NG") t')
    × (t'.count ≡ 0)
gest_sm_comunication-pieces_example =
    gest_sm_comunication-pieces 0 (codes "PI") (codes "NG") (replicate 2045 0) (replicate 2043 0)
      (replicate 2048 0) 10 (refl, refl, (refl, refl, tt)) (refl, refl, (refl, refl, tt)) refl
      (length-replicate {A = ℕ} 2048 0) (omega arith)

many_text : (n : ℕ) → AllText (replicate n 65)
many_text zero = tt
many_text (suc n) = (refl, refl, many_text n)

gest_sm_comunication_flooded_example :
    (t : Segment) × (gest_sm_comunication 0 (at_text [] (replicate 2048 65) [] (replicate 2048 0))
      ≡ waiting t)
    × (gest_sm_comunication 0 (record t { shmrx = replicate 2048 80 })
        ≡ waiting (record t { shmrx = replicate 2048 80 }))
gest_sm_comunication_flooded_example =
    gest_sm_comunication_flooded (replicate 2048 65) (replicate 2048 0) (replicate 2048 80)
      (many_text 2048) (length-replicate {A = ℕ} 2048 65) (length-replicate {A = ℕ} 2048 0)
      (length-replicate {A = ℕ} 2048 80)

-- `VER` and an end of line, over what a longer datagram has left.
abbrev net : Net
net = record { status = 1; timerconnect = pos 0; rxbuff = codes "SENSOR,LIST" }

abbrev seen : Seen
seen = record {
  clock = pos 3;
  online = true;
  opens = true;
  received = some (codes "VER" ++ (10 ∷ []));
  ping_sent = pos 5;
  reply_sent = pos 9;
}

receive-line_example :
    (cmd : List ℕ) × (deeds : List Deed) × ((receive seen net).1 ≡ runs cmd ∷ deeds)
    × (parser_command cmd ≡ parser_command (codes "VER"))
receive-line_example =
    receive-line seen net (codes "VER") [] 10 refl (refl, refl, (refl, refl, (refl, refl, tt))) refl

-- From a blank display to `OK` on its first line.
abbrev blank_line : List ℕ
blank_line = replicate 16 32

abbrev ok_line : List ℕ
ok_line = 79 ∷ 75 ∷ replicate 14 32

abbrev screen : Screen
screen = record { line_of = λ k. blank_line; at_x = 0; at_y = 0 }

write_to_display-shown_example :
    ((show
          (write_to_display (panel_of ok_line blank_line blank_line blank_line 0 0)).0
          screen).line_of
        0
      ≡ ok_line)
    × ((show
            (write_to_display (panel_of ok_line blank_line blank_line blank_line 0 0)).0
            screen).line_of
          1
        ≡ blank_line)
    × ((write_to_display
          (write_to_display (panel_of ok_line blank_line blank_line blank_line 0 0)).1).0
        ≡ [])
write_to_display-shown_example =
    write_to_display-shown ok_line blank_line blank_line blank_line 0 0 screen (omega arith)
      (length-replicate {A = ℕ} 16 32) (length-replicate {A = ℕ} 16 32)
      (length-replicate {A = ℕ} 16 32) refl refl
