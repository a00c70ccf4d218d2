-- ===== src/Prelude/Texts.antt =====
-- The characters of a literal, and the test of `strcmp`.
use Prim.Native.Nat.{ℕ}
use Prim.Native.Char.{code}
use Prim.Native.String.{String}
use mathlib.Core.Bool.{Bool, true, false, ◌&&◌}
use mathlib.Core.List.{List, [], ◌∷◌}
use mathlib.Core.Option.{Option, none, some}
use ri_mms_linux.Prelude.Tests.{◌==◌, if◌then◌else◌}

abbrev pub codes : String → List ℕ
codes String.[] = []
codes (String.◌∷◌ c s) = code c ∷ codes s

-- `strcmp(a, b)==0`
abbrev pub same_text : List ℕ → List ℕ → Bool
same_text [] [] = true
same_text (x ∷ xs) (y ∷ ys) = x == y && same_text xs ys
same_text _ _ = false

-- A C string: the characters before the first zero.
abbrev pub c_string : List ℕ → List ℕ
c_string [] = []
c_string (c ∷ cells) = if c == 0 then [] else c ∷ c_string cells

-- Whether a text begins with a word.
abbrev pub is_prefix : List ℕ → List ℕ → Bool
is_prefix [] text = true
is_prefix (c ∷ word) [] = false
is_prefix (c ∷ word) (d ∷ text) = c == d && is_prefix word text

-- `strstr(text, word)` of a C string: the rest of the text from the word's first place on.
abbrev pub strstr : List ℕ → List ℕ → Option (List ℕ)
strstr [] word = if is_prefix word [] then some [] else none
strstr (c ∷ text) word = if is_prefix word (c ∷ text) then some (c ∷ text) else strstr text word

-- `strchr(text, c)` for a `c` other than zero.
abbrev pub strchr : List ℕ → ℕ → Option (List ℕ)
strchr [] c = none
strchr (d ∷ text) c = if d == c then some (d ∷ text) else strchr text c

-- The text before the first `c`, or all of it: what `*strchr(text, c) = 0` leaves.
abbrev pub cut_at : ℕ → List ℕ → List ℕ
cut_at c [] = []
cut_at c (d ∷ text) = if d == c then [] else d ∷ cut_at c text
