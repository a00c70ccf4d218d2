-- ===== src/Params/Values.antt =====
-- What `ReadParamFile` reads.
use ri_mms_linux.Prelude.{
  ℕ, ◌≡◌, ◌≢◌, ◌↔◌, refl, ap, ◌∙◌, arith, Bool, true, false, List, [], ◌∷◌, ◌++◌, Option, none,
  some, length, drop, codes, c_string, strstr, strchr, cut_at, ◌==◌,
}
use ri_mms_linux.Params.{
  Param, null, value, faults, param_after, read_lines, read_param_file, get_remote_connection,
  get_mac_address,
}

-- A text without the character.
abbrev Lacks : ℕ → List ℕ → Type 0
Lacks c [] = Unit {0}
Lacks c (d ∷ text) = (d == c ≡ false) × Lacks c text

-- Lines without the word.
abbrev AllLack : List ℕ → List (List ℕ) → Type 0
AllLack word [] = Unit {0}
AllLack word (line ∷ lines) = (strstr (c_string line) word ≡ none) × AllLack word lines

drop-append : (word text : List ℕ) → drop (length word) (word ++ text) ≡ text
drop-append [] text = refl
drop-append (c ∷ word) text = drop-append word text

strchr-Lacks :
    (c : ℕ) (before text : List ℕ)
    → Lacks c before
    → strchr (before ++ (c ∷ text)) c ≡ some (c ∷ text)
strchr-Lacks c [] text lacks = ground arith
strchr-Lacks c (d ∷ before) text (ne, lacks) = rw ne (strchr-Lacks c before text lacks)

cut_at-Lacks : (c : ℕ) (text after : List ℕ) → Lacks c text → cut_at c (text ++ (c ∷ after)) ≡ text
cut_at-Lacks c [] after lacks = ground arith
cut_at-Lacks c (d ∷ text) after (ne, lacks) =
    rw ne (ap (λ t. d ∷ t) (cut_at-Lacks c text after lacks))

cut_at-eq : (c : ℕ) (text : List ℕ) → Lacks c text → cut_at c text ≡ text
cut_at-eq c [] lacks = refl
cut_at-eq c (d ∷ text) (ne, lacks) = rw ne (ap (λ t. d ∷ t) (cut_at-eq c text lacks))

-- The rest of the line, past the next space, without its end.
param_after-value :
    (passed text ending : List ℕ)
    → Lacks 32 passed
    → Lacks 10 text
    → Lacks 13 text
    → param_after (passed ++ (32 ∷ (text ++ (10 ∷ ending)))) ≡ value text
unfolding param_after
param_after-value passed text ending no_space no_end no_return =
    rw (strchr-Lacks 32 passed (text ++ (10 ∷ ending)) no_space, param_after)
      (ap value (ap (cut_at 13) (cut_at-Lacks 10 text ending no_end) ∙ cut_at-eq 13 text no_return))

module _ (parametro passed text line : List ℕ) (after : List (List ℕ)) where
  read_lines-value :
      (before : List (List ℕ))
      → AllLack parametro before
      → strstr (c_string line) parametro
        ≡ some (parametro ++ (passed ++ (32 ∷ (text ++ (10 ∷ [])))))
      → Lacks 32 passed
      → Lacks 10 text
      → Lacks 13 text
      → read_lines parametro (before ++ (line ∷ after)) ≡ value text
  unfolding read_lines
  read_lines-value [] lack found no_space no_end no_return =
      rw (found, read_lines)
        (ap param_after (drop-append parametro _)
          ∙ param_after-value passed text [] no_space no_end no_return)
  read_lines-value (l ∷ before) (here, lack) found no_space no_end no_return =
      rw (here, read_lines) (read_lines-value before lack found no_space no_end no_return)

  -- If no earlier line has the word, and after its first place this line goes on with characters
  -- other than a space, a space, a text and the end of line, then the text is what is read: what
  -- stands between the word and the space is passed over, and the lines behind do not matter.
  read_param_file-value :
      (before : List (List ℕ))
      → AllLack parametro before
      → strstr (c_string line) parametro
        ≡ some (parametro ++ (passed ++ (32 ∷ (text ++ (10 ∷ [])))))
      → Lacks 32 passed
      → Lacks 10 text
      → Lacks 13 text
      → read_param_file parametro (some (before ++ (line ∷ after))) ≡ value text
  unfolding read_param_file
  read_param_file-value before lack found no_space no_end no_return =
      read_lines-value before lack found no_space no_end no_return

read_lines-AllLack :
    (parametro : List ℕ) (lines : List (List ℕ))
    → AllLack parametro lines
    → read_lines parametro lines ≡ null
unfolding read_lines
read_lines-AllLack parametro [] lack = refl
read_lines-AllLack parametro (line ∷ lines) (here, lack) =
    rw (here, read_lines) (read_lines-AllLack parametro lines lack)

param_after-ne-null : (position : List ℕ) → param_after position ≢ null
unfolding param_after
param_after-ne-null position e =
    elim (strchr position 32) as (λ o. by_space o ≡ null → ⊥) [
      | none ↦ λ e'. cc
      | some at ↦ λ e'. cc
    ]
      e
  where
    by_space : Option (List ℕ) → Param
    by_space o = elim o [ none ↦ faults | some at ↦ value (cut_at 13 (cut_at 10 (drop 1 at))) ]

read_lines-eq-null :
    (parametro : List ℕ) (lines : List (List ℕ))
    → read_lines parametro lines ≡ null
    → AllLack parametro lines
unfolding read_lines
read_lines-eq-null parametro [] e = tt
read_lines-eq-null parametro (line ∷ lines) e =
    by_place (strstr (c_string line) parametro) refl e (read_lines-eq-null parametro lines)
  where
    by_place :
        (o : Option (List ℕ))
        → strstr (c_string line) parametro ≡ o
        → elim o as (λ x. Param) [
          | none ↦ read_lines parametro lines
          | some position ↦ param_after (drop (length parametro) position)
        ]
          ≡ null
        → (read_lines parametro lines ≡ null → AllLack parametro lines)
        → AllLack parametro (line ∷ lines)
    by_place none here e' rest = (here, rest e')
    by_place (some position) here e' rest = absurd (param_after-ne-null _ e')

-- `GetRemoteConnection` finds the line down exactly if `ifconfig` has written no line with `inet
-- addr`.
get_remote_connection_lem :
    (lines : List (List ℕ))
    → (get_remote_connection (some lines) ≡ some false) ↔ AllLack (codes "inet addr") lines
unfolding get_remote_connection
get_remote_connection_lem lines = (
  λ down. read_lines-eq-null _ lines (by_param (read_lines (codes "inet addr") lines) down),
  λ lack. ap by_answer (read_lines-AllLack _ lines lack),
)
  where
    by_answer : Param → Option Bool
    by_answer p = elim p [ null ↦ some false | value param ↦ some true | faults ↦ none ]

    by_param : (p : Param) → by_answer p ≡ some false → p ≡ null
    by_param null e = refl
    by_param (value param) e = cc
    by_param faults e = cc

-- `HWaddr ` already ends in a space, so of a line with an address, two spaces and its end, as
-- `ifconfig` writes it, `GetMacAddress` reads one space and never the address.
pub get_mac_address_blank :
    (address line : List ℕ) (before after : List (List ℕ))
    → AllLack (codes "HWaddr ") before
    → strstr (c_string line) (codes "HWaddr ") ≡ some (codes "HWaddr " ++ (address ++ codes "  \n"))
    → Lacks 32 address
    → get_mac_address (some (before ++ (line ∷ after))) ≡ some (codes " ")
unfolding get_mac_address
get_mac_address_blank address line before after lack found no_space = ap by_answer (
    read_param_file-value (codes "HWaddr ") address (codes " ") line after before lack found
      no_space (refl, tt) (refl, tt))
  where
    by_answer : Param → Option (List ℕ)
    by_answer p = elim p [ null ↦ none | value param ↦ some param | faults ↦ none ]
