-- ===== src/Shm/Rounds.antt =====
-- The rounds of `GestSMComunication` on text, on an empty cell and at the end of a line.
use ri_mms_linux.Prelude.{
  ℕ, suc, ◌+◌, ◌-◌, ◌≤◌, ◌<◌, ◌≡◌, refl, ap, ◌∙◌, arith, true, false, List, [], ◌∷◌, ◌++◌, length,
  length-append, append_assoc, append-nil, get_or, get_or-append, set-append, set, take, drop,
  take-append, ltb, ◌==◌,
}
use mathlib.Core.Path.{subst}
use ri_mms_linux.Shm.{shmsz, Segment, waiting, command, is_end, read_segment, gest_sm_comunication}

-- Neither the zero of an empty cell nor an end of line.
abbrev pub AllText : List ℕ → Type 0
AllText [] = Unit
AllText (c ∷ text) = ((c == 0) ≡ false) × (is_end c ≡ false) × AllText text

-- The segment with `seen` cells behind the count, all read, and the buffer with the text `held`.
abbrev pub at_text : List ℕ → List ℕ → List ℕ → List ℕ → Segment
at_text seen unread held room = record {
  shmrx = seen ++ unread;
  buffer = held ++ room;
  count = length held;
}

-- As many zeros as the text has characters.
abbrev pub zeros : List ℕ → List ℕ
zeros [] = []
zeros (c ∷ text) = 0 ∷ zeros text

module _ (beyond : ℕ) where
  read_segment-one :
      (fuel c : ℕ) (seen unread held room : List ℕ) (r : ℕ)
      → length seen ≡ length held
      → length held < shmsz
      → (c == 0) ≡ false
      → is_end c ≡ false
      → read_segment beyond (suc fuel) (at_text seen (c ∷ unread) held (r ∷ room))
        ≡ read_segment beyond fuel (at_text (seen ++ (0 ∷ [])) unread (held ++ (c ∷ [])) room)
  unfolding read_segment
  read_segment-one fuel c seen unread held room r same small some_char no_end =
      let here : get_or (seen ++ (c ∷ unread)) (length held) beyond ≡ c =
        subst (λ n. get_or (seen ++ (c ∷ unread)) n beyond ≡ c) same
          (get_or-append seen c unread beyond) in
      let cleared : set (seen ++ (c ∷ unread)) (length held) 0 ≡ (seen ++ (0 ∷ [])) ++ unread =
        subst (λ n. set (seen ++ (c ∷ unread)) n 0 ≡ (seen ++ (0 ∷ [])) ++ unread) same
          (set-append seen c unread 0) in
      let stored = set-append held r room c in
      let inside : ltb (length held) shmsz ≡ true = ground arith in
      let longer : length held + 1 ≡ length (held ++ (c ∷ [])) =
        omega (arith, length-append held (c ∷ [])) in
      rw here (rw some_char (rw inside (rw no_end (rw (cleared, stored, longer) refl))))

  read_segment-walk :
      (text : List ℕ) (fuel : ℕ) (seen unread held room : List ℕ)
      → AllText text
      → length seen ≡ length held
      → length held + length room ≡ shmsz
      → length text ≤ length room
      → read_segment beyond (length text + fuel) (at_text seen (text ++ unread) held room)
        ≡ read_segment beyond fuel
            (at_text (seen ++ zeros text) unread (held ++ text) (drop (length text) room))
  read_segment-walk [] fuel seen unread held room all same full fits =
      let none_read : 0 + fuel ≡ fuel = omega arith in
      rw (none_read, append-nil seen, append-nil held) refl
  read_segment-walk (c ∷ text) fuel seen unread held [] all same full fits = absurd (omega arith)
  read_segment-walk (c ∷ text) fuel seen unread held (r ∷ room) (some_char, no_end, all) same full
        fits =
      let n : suc (length text) + fuel ≡ suc (length text + fuel) = omega arith in
      let longer : length (held ++ (c ∷ [])) ≡ length held + 1 =
        omega (arith, length-append held (c ∷ [])) in
      let seen_longer : length (seen ++ (0 ∷ [])) ≡ length seen + 1 =
        omega (arith, length-append seen (0 ∷ [])) in
      ap (λ k. read_segment beyond k (at_text seen (c ∷ (text ++ unread)) held (r ∷ room))) n
      ∙ read_segment-one (length text + fuel) c seen (text ++ unread) held room r same (omega arith)
          some_char no_end
      ∙ read_segment-walk text fuel (seen ++ (0 ∷ [])) unread (held ++ (c ∷ [])) room all
          (omega arith) (omega arith) (omega arith)
      ∙ rw (append_assoc seen (0 ∷ []) (zeros text), append_assoc held (c ∷ []) text) refl

  -- The rounds that are left after the text.
  pub gest_sm-walk :
      (text seen unread held room : List ℕ)
      → AllText text
      → length seen ≡ length held
      → length held + length room ≡ shmsz
      → length text ≤ length room
      → gest_sm_comunication beyond (at_text seen (text ++ unread) held room)
        ≡ read_segment beyond
            (suc (shmsz - length text))
            (at_text (seen ++ zeros text) unread (held ++ text) (drop (length text) room))
  unfolding gest_sm_comunication
  gest_sm-walk text seen unread held room all same full fits =
      let rounds : shmsz + 1 ≡ length text + suc (shmsz - length text) = omega arith in
      ap (λ k. read_segment beyond k (at_text seen (text ++ unread) held room)) rounds
      ∙ read_segment-walk text (suc (shmsz - length text)) seen unread held room all same full fits

  pub length-zeros : (text : List ℕ) → length (zeros text) ≡ length text
  length-zeros [] = refl
  length-zeros (c ∷ text) = ap suc (length-zeros text)

  pub read_segment_zero :
      (fuel : ℕ) (t : Segment)
      → get_or t.shmrx t.count beyond ≡ 0
      → read_segment beyond (suc fuel) t ≡ waiting t
  unfolding read_segment
  read_segment_zero fuel t here = rw here refl

  pub gest_sm_zero :
      (t : Segment) → get_or t.shmrx t.count beyond ≡ 0 → gest_sm_comunication beyond t ≡ waiting t
  unfolding gest_sm_comunication
  gest_sm_zero t here = read_segment_zero shmsz t here

  pub read_segment-wait :
      (fuel : ℕ) (seen rest held room : List ℕ)
      → length seen ≡ length held
      → read_segment beyond (suc fuel) (at_text seen (0 ∷ rest) held room)
        ≡ waiting (at_text seen (0 ∷ rest) held room)
  read_segment-wait fuel seen rest held room same =
      read_segment_zero fuel (at_text seen (0 ∷ rest) held room) (
        subst (λ n. get_or (seen ++ (0 ∷ rest)) n beyond ≡ 0) same
          (get_or-append seen 0 rest beyond))

  pub read_segment-end :
      (fuel e : ℕ) (seen rest held room : List ℕ) (r : ℕ)
      → length seen ≡ length held
      → length held < shmsz
      → is_end e ≡ true
      → read_segment beyond (suc fuel) (at_text seen (e ∷ rest) held (r ∷ room))
        ≡ command held (record {
          shmrx = (seen ++ (0 ∷ [])) ++ rest;
          buffer = (held ++ (0 ∷ [])) ++ room;
          count = 0;
        })
  unfolding read_segment
  read_segment-end fuel e seen rest held room r same small ends =
      let here : get_or (seen ++ (e ∷ rest)) (length held) beyond ≡ e =
        subst (λ n. get_or (seen ++ (e ∷ rest)) n beyond ≡ e) same
          (get_or-append seen e rest beyond) in
      let cleared : set (seen ++ (e ∷ rest)) (length held) 0 ≡ (seen ++ (0 ∷ [])) ++ rest =
        subst (λ n. set (seen ++ (e ∷ rest)) n 0 ≡ (seen ++ (0 ∷ [])) ++ rest) same
          (set-append seen e rest 0) in
      let stored = set-append held r room 0 in
      let inside : ltb (length held) shmsz ≡ true = ground arith in
      let not_empty : (e == 0) ≡ false = ground (arith, ends) in
      let text : take (length held) ((held ++ (0 ∷ [])) ++ room) ≡ held =
        ap (take (length held)) (append_assoc held (0 ∷ []) room) ∙ take-append held (0 ∷ room) in
      rw here (rw not_empty (rw inside (rw ends (rw (cleared, stored, text) refl))))
