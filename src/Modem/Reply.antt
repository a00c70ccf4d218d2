-- ===== src/Modem/Reply.antt =====
-- `ModemSignal` and `ModemOperator` of sw/modem.c: how the replies to `AT+CSQ` and `AT+COPS?` are
-- cut into words. The exchange with the modem is input: `none` is no reply. The words stand in
-- `param[100][1024]`, which the code does not check; here the list is unbounded, and `WordsFit`
-- says of a text that its words stay within.
pub mod Words
pub mod Operators
use ri_mms_linux.Prelude.{ℕ, ◌<◌, Bool, true, false, ◌||◌, List, [], ◌∷◌, ◌++◌, Option, none, some}
use ri_mms_linux.Prelude.{length, get_or, take, ltb, ◌==◌, if◌then◌else◌}
use ri_mms_linux.Prelude.Words.{u8}
use ri_mms_linux.Modem.{Modem}

-- `' '`, `','`, `'\n'`, `'\r'`, `'\0'`
abbrev pub separator_signal : ℕ → Bool
separator_signal c = c == 32 || (c == 44 || (c == 10 || (c == 13 || c == 0)))

-- The same and `'"'`.
abbrev pub separator_operator : ℕ → Bool
separator_operator c = c == 34 || separator_signal c

abbrev pub close_word : List ℕ → List (List ℕ)
close_word [] = []
close_word (c ∷ word) = (c ∷ word) ∷ []

-- The loop of both functions, with the `y` characters of the word that is open: the result is
-- `param[0]` to `param[x - 1]`. A word that the text ends in is not counted.
unfoldable pub split_words : (ℕ → Bool) → List ℕ → List ℕ → List (List ℕ)
split_words separator word [] = []
split_words separator word (c ∷ text) =
    if separator c
    then close_word word ++ split_words separator [] text
    else split_words separator (word ++ (c ∷ [])) text

-- The words fit `param[100][1024]`: at most 99 that are closed, so that the one that is open has a
-- place, and a text that is itself shorter than a row.
pub record WordsFit (separator : ℕ → Bool) (text : List ℕ) : Type 0 where
  pub few : length (split_words separator [] text) < 100
  pub short : length text < 1024

-- The same of a reply, if there is one.
abbrev pub ReplyFits : (ℕ → Bool) → Option (List ℕ) → Type 0
ReplyFits separator none = Unit
ReplyFits separator (some text) = WordsFit separator text

-- `"---"`
abbrev pub no_operator : List ℕ
no_operator = 45 ∷ 45 ∷ 45 ∷ []

-- `ModemSignal`; `atoi` is the C library's, an `int` as its 32-bit pattern.
unfoldable pub modem_signal : (List ℕ → ℕ) → Option (List ℕ) → Modem → Modem
unfolding split_words
modem_signal atoi none m = m
modem_signal atoi (some string) m =
    let param = split_words separator_signal [] string in
    if ltb 2 (length param) then record m { signal = u8 (atoi (get_or param 1 [])) } else m

-- `ModemOperator`
unfoldable pub modem_operator : Option (List ℕ) → Modem → Modem
unfolding split_words
modem_operator none m = m
modem_operator (some string) m =
    let param = split_words separator_operator [] string in
    if ltb 4 (length param)
    then record m { operatorname = take 3 (get_or param 4 []); registered = true }
    else record m { operatorname = no_operator; registered = false }
