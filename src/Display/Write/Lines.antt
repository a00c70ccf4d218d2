-- ===== src/Display/Write/Lines.antt =====
-- A text over a line of the display that has been cleared.
use ri_mms_linux.Prelude.{
  ℕ, zero, suc, ◌+◌, ◌≡◌, refl, ap, ◌∙◌, arith, List, [], ◌∷◌, ◌++◌, length, length-append,
  append_assoc, set-append, drop, replicate,
}
use ri_mms_linux.Log.Tags.{store_text}
use ri_mms_linux.Display.Gest.{clear_line}

-- A text and its zero over the rest of a line.

-- A text and its zero over the rest of a line.
store_text-over :
    (done rest text : List ℕ)
    → length rest ≡ length text + 1
    → store_text (done ++ rest) (length done) text ≡ done ++ (text ++ (0 ∷ []))
store_text-over done [] text same = absurd (omega arith)
store_text-over done (r ∷ []) [] same = set-append done r [] 0 ∙ append_assoc done (0 ∷ []) []
store_text-over done (r ∷ r' ∷ rest) [] same = absurd (omega arith)
store_text-over done (r ∷ rest) (c ∷ text) same =
    let longer : length done + 1 ≡ length (done ++ (c ∷ [])) =
      omega (arith, length-append done (c ∷ [])) in
    ap (λ cells. store_text cells (length done + 1) text) (set-append done r rest c)
    ∙ ap (λ n. store_text ((done ++ (c ∷ [])) ++ rest) n text) longer
    ∙ store_text-over (done ++ (c ∷ [])) rest text (omega arith)
    ∙ append_assoc done (c ∷ []) (text ++ (0 ∷ []))

drop-last : (n : ℕ) (line : List ℕ) (z : ℕ) → length line ≡ n → drop n (line ++ (z ∷ [])) ≡ z ∷ []
drop-last zero [] z same = refl
drop-last zero (c ∷ line) z same = absurd (omega arith)
drop-last (suc n) [] z same = absurd (omega arith)
drop-last (suc n) (c ∷ line) z same = drop-last n line z (omega arith)

pub store_text-clear_line :
    (line text : List ℕ)
    → length line ≡ 16
    → length text ≡ 16
    → store_text (clear_line (line ++ (0 ∷ []))) 0 text ≡ text ++ (0 ∷ [])
store_text-clear_line line text line_16 text_16 =
    ap (λ end. store_text (replicate 16 0 ++ end) 0 text) (drop-last 16 line 0 line_16)
    ∙ store_text-over [] (replicate 17 0) text (omega arith)
