-- ===== src/Modem/Reply/Words.antt =====
-- The splitter of `ModemSignal` and `ModemOperator` against the text it is to take apart.
use ri_mms_linux.Prelude.{
  ℕ, ◌≡◌, refl, ap, ◌∙◌, Bool, true, false, List, [], ◌∷◌, ◌++◌, append-nil, append_assoc,
}
use ri_mms_linux.Modem.Reply.{close_word, split_words}

-- A word without separators.
pub data IsPlain (separator : ℕ → Bool) : List ℕ → Type 0 where
  plain_nil : IsPlain separator []
  plain_cons :
      (c : ℕ) (word : List ℕ)
      → separator c ≡ false
      → IsPlain separator word
      → IsPlain separator (c ∷ word)

-- Words that are not empty.
pub data AllWords (separator : ℕ → Bool) : List (List ℕ) → Type 0 where
  no_words : AllWords separator []
  one_word :
      (c : ℕ) (word : List ℕ) (words : List (List ℕ))
      → IsPlain separator (c ∷ word)
      → AllWords separator words
      → AllWords separator ((c ∷ word) ∷ words)

-- The words of a reply, each followed by the same separator.
abbrev pub join : ℕ → List (List ℕ) → List ℕ
join c [] = []
join c (word ∷ words) = word ++ (c ∷ join c words)

pub split_words-word :
    (separator : ℕ → Bool) (open_word word : List ℕ) (c : ℕ) (text : List ℕ)
    → IsPlain separator word
    → separator c ≡ true
    → split_words separator open_word (word ++ (c ∷ text))
      ≡ close_word (open_word ++ word) ++ split_words separator [] text
unfolding split_words
split_words-word separator w _ c text plain_nil ends = rw ends (rw (append-nil w) refl)
split_words-word separator w _ c text (plain_cons b word e p) ends = rw e (
    split_words-word separator (w ++ (b ∷ [])) word c text p ends
    ∙ ap (λ t. close_word t ++ split_words separator [] text) (append_assoc w (b ∷ []) word))

-- From a text that is words, none empty and without separators, each followed by a separator, the
-- splitter gets back the words.
split_words-join :
    (separator : ℕ → Bool) (c : ℕ) (words : List (List ℕ))
    → separator c ≡ true
    → AllWords separator words
    → split_words separator [] (join c words) ≡ words
unfolding split_words
split_words-join separator c _ ends no_words = refl
split_words-join separator c _ ends (one_word b word words p ps) =
    split_words-word separator [] (b ∷ word) c (join c words) p ends
    ∙ ap (λ t. (b ∷ word) ∷ t) (split_words-join separator c words ends ps)
