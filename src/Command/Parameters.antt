-- ===== src/Command/Parameters.antt =====
-- Which commands are cut into their parameters.
use ri_mms_linux.Prelude.{
  ℕ, ◌+◌, ◌≤◌, ◌<◌, ◌≡◌, refl, ap, sym, ◌∙◌, arith, true, false, List, [], ◌∷◌, ◌++◌, length,
  length-append, append_assoc, append-nil,
}
use ri_mms_linux.Command.{parameters, is_separator, is_end, in_bounds, parse_from, parser_command}

-- No separator and no end of line.
abbrev pub IsParameter : List ℕ → Type 0
IsParameter [] = Unit
IsParameter (c ∷ cs) = (is_separator c ≡ false) × (is_end c ≡ false) × IsParameter cs

abbrev pub AllParameters : List (List ℕ) → Type 0
AllParameters [] = Unit
AllParameters (w ∷ ws) = IsParameter w × (length w < 128) × AllParameters ws

-- The parameters with commas between them.
abbrev pub separated : List ℕ → List (List ℕ) → List ℕ
separated w [] = w
separated w (w' ∷ ws) = w ++ (44 ∷ separated w' ws)

in_bounds_lem :
    (params : List (List ℕ)) (word : List ℕ)
    → length params < 16
    → length word < 128
    → in_bounds params word ≡ true
in_bounds_lem params word p q = ground arith

parse_from-word :
    (w cmd : List ℕ) (params : List (List ℕ)) (word : List ℕ)
    → IsParameter w
    → length params < 16
    → length word + length w < 128
    → parse_from (w ++ cmd) params word ≡ parse_from cmd params (word ++ w)
unfolding parse_from
parse_from-word [] cmd params word h p q = ap (parse_from cmd params) (sym (append-nil word))
parse_from-word (c ∷ w) cmd params word (s, e, h) p q =
    rw (in_bounds_lem params word p (omega arith)) (
      rw s (
        rw e (
          parse_from-word w cmd params (word ++ (c ∷ [])) h p
            (omega (arith, length-append word (c ∷ [])))
          ∙ ap (parse_from cmd params) (append_assoc word (c ∷ []) w))))

parse_from-separated :
    (w : List ℕ) (ws params : List (List ℕ))
    → IsParameter w
    → length w < 128
    → AllParameters ws
    → length params + length ws < 16
    → parse_from (separated w ws) params [] ≡ parameters (params ++ (w ∷ ws))
unfolding parse_from
parse_from-separated w [] params h q hs p =
    ap (λ t. parse_from t params []) (sym (append-nil w))
    ∙ parse_from-word w [] params [] h (omega arith) (omega arith)
    ∙ rw (in_bounds_lem params w (omega arith) q) refl
parse_from-separated w (w' ∷ ws) params h q (h', q', hs) p =
    parse_from-word w (44 ∷ separated w' ws) params [] h (omega arith) (omega arith)
    ∙ rw (in_bounds_lem params w (omega arith) q) (
        parse_from-separated w' ws (params ++ (w ∷ [])) h' q' hs
          (omega (arith, length-append params (w ∷ [])))
        ∙ ap parameters (append_assoc params (w ∷ []) (w' ∷ ws)))

-- From a command of at most 16 parameters, each shorter than 128 characters and without separators
-- and ends of line, with commas between them, `ParserCommand` gets back the parameters and writes
-- nothing outside its array.
pub parser_command-separated :
    (w : List ℕ) (ws : List (List ℕ))
    → AllParameters (w ∷ ws)
    → length (w ∷ ws) ≤ 16
    → parser_command (separated w ws) ≡ parameters (w ∷ ws)
unfolding parser_command
parser_command-separated w ws (h, q, hs) p = parse_from-separated w ws [] h q hs (omega arith)
