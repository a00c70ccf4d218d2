-- ===== src/Modem/Reply/Operators.antt =====
-- What `ModemOperator` makes of the text of a reply.
use ri_mms_linux.Prelude.{
  ℕ, ◌<◌, ◌≡◌, refl, ap, ◌∙◌, append_assoc, Bool, arith, true, false, List, [], ◌∷◌, ◌++◌, some,
  length, take, ltb, get_or, codes, if◌then◌else◌,
}
use ri_mms_linux.Modem.{Modem}
use ri_mms_linux.Modem.Reply.{
  WordsFit, separator_operator, split_words, modem_operator, no_operator,
}
use ri_mms_linux.Modem.Reply.Words.{IsPlain, split_words-word}

-- A word that is not empty and has no separator.
pub record IsWord (separator : ℕ → Bool) (word : List ℕ) : Type 0 where
  pub nonempty : 0 < length word
  pub plain : IsPlain separator word

split_words-IsWord :
    (separator : ℕ → Bool) (word : List ℕ) (c : ℕ) (text : List ℕ)
    → IsWord separator word
    → separator c ≡ true
    → split_words separator [] (word ++ (c ∷ text)) ≡ word ∷ split_words separator [] text
unfolding split_words
split_words-IsWord separator [] c text w ends = absurd (omega (arith, w.nonempty))
split_words-IsWord separator (b ∷ word) c text w ends =
    split_words-word separator [] (b ∷ word) c text w.plain ends

modem_operator_words :
    (string : List ℕ) (m : Modem) (zeroth first second third fourth : List ℕ) (more : List (List ℕ))
    → split_words separator_operator [] string ≡ zeroth ∷ first ∷ second ∷ third ∷ fourth ∷ more
    → modem_operator (some string) m ≡ record m { operatorname = take 3 fourth; registered = true }
unfolding modem_operator
modem_operator_words string m zeroth first second third fourth more e = ap kept e ∙ ground arith
  where
    kept : List (List ℕ) → Modem
    kept param =
        if ltb 4 (length param)
        then record m { operatorname = take 3 (get_or param 4 []); registered = true }
        else record m { operatorname = no_operator; registered = false }

-- `+COPS: 0,0,"I TIM",2` and the end of the line.
abbrev pub cops_text : List ℕ → List ℕ → List ℕ → List ℕ → List ℕ → List ℕ
cops_text mode format name act rest =
    codes "+COPS:"
    ++ (32 ∷ (mode ++ (44 ∷ (format ++ (44 ∷ 34 ∷ (name ++ (34 ∷ 44 ∷ (act ++ (13 ∷ rest)))))))))

module _ (mode format act rest : List ℕ) (first_word : IsWord separator_operator mode)
    (second_word : IsWord separator_operator format)
    (last_word : IsWord separator_operator act) where
  split_cops :
      (name : List ℕ)
      → split_words separator_operator [] (cops_text mode format name act rest)
        ≡ codes "+COPS:"
          ∷ mode
          ∷ format
          ∷ split_words separator_operator [] (name ++ (34 ∷ 44 ∷ (act ++ (13 ∷ rest))))
  unfolding split_words
  split_cops name =
      ap (λ t. codes "+COPS:" ∷ t)
        (split_words-IsWord separator_operator mode 44 _ first_word refl
          ∙ ap (λ t. mode ∷ t) (split_words-IsWord separator_operator format 44 _ second_word refl))

  split_act :
      split_words separator_operator [] (44 ∷ (act ++ (13 ∷ rest)))
      ≡ act ∷ split_words separator_operator [] rest
  unfolding split_words
  split_act = split_words-IsWord separator_operator act 13 rest last_word refl

  split_two :
      (one two : List ℕ)
      → IsWord separator_operator one
      → IsWord separator_operator two
      → split_words separator_operator [] (cops_text mode format (one ++ (32 ∷ two)) act rest)
        ≡ codes "+COPS:" ∷ mode ∷ format ∷ one ∷ two ∷ act ∷ split_words separator_operator [] rest
  split_two one two p q =
      split_cops (one ++ (32 ∷ two))
      ∙ ap (λ t. codes "+COPS:" ∷ mode ∷ format ∷ t)
          (ap (split_words separator_operator []) (append_assoc one (32 ∷ two) _)
            ∙ split_words-IsWord separator_operator one 32 _ p refl
            ∙ ap (λ t. one ∷ t)
                (split_words-IsWord separator_operator two 34 _ q refl
                  ∙ ap (λ t. two ∷ t) split_act))

  -- If the text that `ModemOperator` reads is `+COPS: `, two words with a comma behind each, in
  -- quotes a name of two words with one space between, such as `"I TIM"`, a comma, a word and the
  -- end of the line, and what follows keeps the words within their array, the operator kept is the
  -- first three characters of the second word of the name, and the modem is registered.
  pub modem_operator_two :
      (m : Modem) (one two : List ℕ)
      → WordsFit separator_operator (cops_text mode format (one ++ (32 ∷ two)) act rest)
      → IsWord separator_operator one
      → IsWord separator_operator two
      → modem_operator (some (cops_text mode format (one ++ (32 ∷ two)) act rest)) m
        ≡ record m { operatorname = take 3 two; registered = true }
  modem_operator_two m one two fit p q =
      modem_operator_words _ m _ mode format one two _ (split_two one two p q)
