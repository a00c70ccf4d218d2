-- ===== src/Display/Panel.antt =====
-- What sw/display.c sends to the LCD: `lcdsetcurpos`, `lcdputchar` and `WriteToDisplay`, which sends
-- the characters of `displayline1` that differ from those of `displaymemline1`.
-- `lcdsend` is taken to succeed; its bytes are kept as instructions.
use ri_mms_linux.Prelude.{ℕ, ◌+◌, List, [], ◌∷◌, ◌++◌, ltb, ◌==◌, if◌then◌else◌}

pub data Instruction : Type 0 where
  -- 0x80+x on the first line, 0x80+0x40+x on the second
  cursor : ℕ → ℕ → Instruction
  put_char : ℕ → Instruction

-- `lcdsetcurpos`: nothing is sent for a position that is not on the display. No caller looks at its
-- result.
unfoldable pub lcdsetcurpos : ℕ → ℕ → List Instruction
lcdsetcurpos x y = if ltb 1 y then [] else if ltb 15 x then [] else cursor x y ∷ []

abbrev pub lcdputchar : ℕ → List Instruction
lcdputchar c = put_char c ∷ []

-- The inner loop of `WriteToDisplay` on a line and what was sent of it, from column `x` on.
unfoldable pub write_line : ℕ → ℕ → List ℕ → List ℕ → List Instruction
write_line y x (c ∷ line) (d ∷ mem) =
    let rest = write_line y (x + 1) line mem in
    if c == d then rest else lcdsetcurpos x y ++ (lcdputchar c ++ rest)
write_line y x line mem = []

unfoldable pub keep_line : List ℕ → List ℕ → List ℕ
keep_line (c ∷ line) (d ∷ mem) = (if c == d then d else c) ∷ keep_line line mem
keep_line line mem = mem

-- `displayline1` and `displaymemline1`, two lines of 17 cells each.
pub record Panel : Type 0 where
  pub upper : List ℕ
  pub lower : List ℕ
  pub mem_upper : List ℕ
  pub mem_lower : List ℕ

-- `WriteToDisplay`: what it sends, and the panel after it.
unfoldable pub write_to_display : Panel → List Instruction × Panel
write_to_display p = (
  write_line 0 0 p.upper p.mem_upper ++ write_line 1 0 p.lower p.mem_lower,
  record p { mem_upper = keep_line p.upper p.mem_upper; mem_lower = keep_line p.lower p.mem_lower },
)
