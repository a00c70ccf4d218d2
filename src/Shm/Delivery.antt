-- ===== src/Shm/Delivery.antt =====
-- What reaches `ParserCommand` of the text that the segment is given, in one piece or in several.
use ri_mms_linux.Prelude.{
  ℕ, zero, suc, ◌+◌, ◌-◌, ◌≤◌, ◌<◌, ◌≡◌, refl, sym, ap, ◌∙◌, arith, true, List, [], ◌∷◌, ◌++◌,
  length, length-append, append-nil, get_or, drop,
}
use ri_mms_linux.Shm.{shmsz, Segment, waiting, command, is_end, read_segment, gest_sm_comunication}
use ri_mms_linux.Shm.Rounds.{
  AllText, at_text, zeros, gest_sm-walk, length-zeros, read_segment_zero, gest_sm_zero,
  read_segment-wait, read_segment-end,
}

module _ (beyond : ℕ) where
  length-drop : (n : ℕ) (room : List ℕ) → n ≤ length room → length (drop n room) + n ≡ length room
  length-drop zero room h = omega arith
  length-drop (suc n) [] h = absurd (omega arith)
  length-drop (suc n) (r ∷ room) h = omega (arith, length-drop n room (omega arith))

  waits :
      (text rest held room : List ℕ)
      → AllText text
      → length held + length room ≡ shmsz
      → length text ≤ length room
      → gest_sm_comunication beyond (at_text (zeros held) (text ++ (0 ∷ rest)) held room)
        ≡ waiting
            (at_text (zeros held ++ zeros text) (0 ∷ rest) (held ++ text) (drop (length text) room))
  waits text rest held room all full fits =
      let same = length-zeros beyond held in
      gest_sm-walk beyond text (zeros held) (0 ∷ rest) held room all same full fits
      ∙ read_segment-wait beyond (shmsz - length text) (zeros held ++ zeros text) rest
          (held ++ text) (drop (length text) room)
          (omega (
            arith,
            length-append held text,
            length-append (zeros held) (zeros text),
            length-zeros beyond text,
            same,
          ))

  -- The state after the end of a line.
  abbrev ended : List ℕ → List ℕ → List ℕ → List ℕ → Segment
  ended seen rest held room = record {
    shmrx = (seen ++ (0 ∷ [])) ++ rest;
    buffer = (held ++ (0 ∷ [])) ++ room;
    count = 0;
  }

  runs :
      (text rest held room : List ℕ) (e : ℕ)
      → AllText text
      → is_end e ≡ true
      → length held + length room ≡ shmsz
      → length text < length room
      → (room' : List ℕ) × (gest_sm_comunication beyond
            (at_text (zeros held) (text ++ (e ∷ rest)) held room)
          ≡ command (held ++ text) (ended (zeros held ++ zeros text) rest (held ++ text) room'))
  runs text rest held room e all ends full fits = by_room (drop (length text) room) refl
    where
      by_room :
          (left : List ℕ)
          → drop (length text) room ≡ left
          → (room' : List ℕ) × (gest_sm_comunication beyond
                (at_text (zeros held) (text ++ (e ∷ rest)) held room)
              ≡ command (held ++ text) (ended (zeros held ++ zeros text) rest (held ++ text) room'))
      by_room [] d =
          let n : length (drop (length text) room) ≡ 0 = ap length d in
          absurd (omega (arith, length-drop (length text) room (omega arith)))
      by_room (r ∷ room') d = (
        room',
        gest_sm-walk beyond text (zeros held) (e ∷ rest) held room all (length-zeros beyond held)
              full (omega arith)
            ∙ ap
                (λ left.
                  read_segment beyond (suc (shmsz - length text))
                    (at_text (zeros held ++ zeros text) (e ∷ rest) (held ++ text) left))
                d
            ∙ read_segment-end beyond (shmsz - length text) e (zeros held ++ zeros text) rest
                (held ++ text) room' r
                (omega (
                  arith,
                  length-append held text,
                  length-append (zeros held) (zeros text),
                  length-zeros beyond text,
                  length-zeros beyond held,
                ))
                (omega (arith, length-append held text)) ends,
      )

  -- A line of at most 2047 characters that the segment is given in two pieces, the first from its
  -- start and the second behind it once the first has been read, reaches `ParserCommand` whole: the
  -- first call only waits, the second hands over both pieces and starts afresh.
  pub gest_sm_comunication-pieces :
      (first second rest rest' room : List ℕ) (e : ℕ)
      → AllText first
      → AllText second
      → is_end e ≡ true
      → length room ≡ 2048
      → length first + length second < 2048
      → (t : Segment) × (gest_sm_comunication beyond (at_text [] (first ++ (0 ∷ rest)) [] room)
          ≡ waiting t)
        × (t' : Segment) × (gest_sm_comunication beyond
              (record t { shmrx = zeros first ++ (second ++ (e ∷ rest')) })
            ≡ command (first ++ second) t')
        × (t'.count ≡ 0)
  gest_sm_comunication-pieces first second rest rest' room e one two ends full short =
      let left : List ℕ = drop (length first) room in
      let again =
        runs second rest' first left e two ends
          (omega (arith, length-drop (length first) room (omega arith)))
          (omega (arith, length-drop (length first) room (omega arith))) in
      (
        at_text (zeros first) (0 ∷ rest) first left,
        waits first rest [] room one (omega arith) (omega arith),
        ended (zeros first ++ zeros second) rest' (first ++ second) again.0,
        again.1,
        refl,
      )

-- With 2048 characters and no end of line the count gets to the size of the segment, and where the
-- byte behind it is zero `GestSMComunication` is stuck: that call returns 0, and so does every
-- later one and changes nothing, whatever is then written to the segment. No command is run any
-- more.
pub gest_sm_comunication_flooded :
    (text room rx : List ℕ)
    → AllText text
    → length text ≡ 2048
    → length room ≡ 2048
    → length rx ≡ 2048
    → (t : Segment) × (gest_sm_comunication 0 (at_text [] text [] room) ≡ waiting t)
      × (gest_sm_comunication 0 (record t { shmrx = rx }) ≡ waiting (record t { shmrx = rx }))
gest_sm_comunication_flooded text room rx all long full wide = (
  t,
  ap (λ cells. gest_sm_comunication 0 (at_text [] cells [] room)) (sym (append-nil text))
      ∙ gest_sm-walk 0 text [] [] [] room all refl (omega arith) (omega arith)
      ∙ read_segment_zero 0 (shmsz - length text) t (
          past_end (zeros text ++ []) (length text)
            (omega (arith, length-append (zeros text) [], length-zeros 0 text))),
  gest_sm_zero 0 (record t { shmrx = rx }) (past_end rx (length text) (omega arith)),
)
  where
    t : Segment
    t = at_text (zeros text) [] text (drop (length text) room)

    past_end : (cells : List ℕ) (n : ℕ) → length cells ≤ n → get_or cells n 0 ≡ 0
    past_end [] n h = refl
    past_end (c ∷ cells) zero h = absurd (omega arith)
    past_end (c ∷ cells) (suc n) h = past_end cells n (omega arith)
