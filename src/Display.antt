-- ===== src/Display.antt =====
-- The queue of texts of sw/display.c: `WriteDisplayBuf` puts a text and its zero into a circular
-- buffer of 1024 characters, `ReadDisplayBuf` takes one out. The text is what `vsprintf` has made of
-- the arguments. `flagWriteDisplayBuf` is the argument `busy`: it has been set for 100 rounds.
pub mod Texts
pub mod Panel
pub mod Shows
pub mod Gest
pub mod Write
pub mod Expander
use ri_mms_linux.Prelude.{
  ℕ, zero, suc, ◌+◌, Bool, true, false, List, [], ◌∷◌, ◌++◌, Option, none, some, set, length, ltb,
  ◌||◌, ◌==◌, if◌then◌else◌,
}
use ri_mms_linux.Ring.{Ring, put, get}

-- MAXDISPLAYBUFFER
abbrev pub maxdisplaybuffer : ℕ
maxdisplaybuffer = 1024

-- The loop, from the character `i` on, with the number returned. On a full buffer a zero takes the
-- place at the write index.
unfoldable pub write_chars : List ℕ → ℕ → Ring → Ring × ℕ
write_chars [] i r = (r, 0)
write_chars (c ∷ cs) i r =
    if ltb r.count maxdisplaybuffer
    then write_chars cs (i + 1) (put maxdisplaybuffer c r)
    else (if i == 0 then r else record r { cells = set r.cells r.inp 0 }, i)

-- How `WriteDisplayBuf` ends: with the number returned and the queue, with -1, or with writes past
-- the end of `tmp`, which C leaves undefined.
pub data Buffered : Type 0 where
  buffered : ℕ → Ring → Buffered
  refused : Buffered
  overruns : Buffered

-- `char tmp[64]` has room for 63 characters and the zero.
unfoldable pub write_display_buf : Bool → List ℕ → Ring → Buffered
write_display_buf busy text r =
    if busy
    then refused
    else if ltb 63 (length text)
    then overruns
    else (let (r', i) = write_chars (text ++ (0 ∷ [])) 0 r in buffered i r')

-- What is in the queue after it, and whether it has written past the end.
abbrev pub queue_after : Ring → Buffered → Ring
queue_after r (buffered i r') = r'
queue_after r refused = r
queue_after r overruns = r

abbrev pub is_overrun : Buffered → Bool
is_overrun (buffered i r') = false
is_overrun refused = false
is_overrun overruns = true

-- The loop, with `n` rounds left. After 65 characters the next one is dropped and the text ends.
unfoldable pub read_chars : ℕ → ℕ → Ring → List ℕ × Ring
read_chars zero count r = ([], r)
read_chars (suc n) count r = elim (get maxdisplaybuffer r) [
  | none ↦ ([], r)
  | some (c, r') ↦
      let (cs, last) = read_chars n (count + 1) r' in
      if c == 0 || ltb 64 count then ([], r') else (c ∷ cs, last)
]

-- `ReadDisplayBuf`, the text before its zero.
unfoldable pub read_display_buf : Ring → List ℕ × Ring
read_display_buf r = read_chars 66 0 r
