-- ===== src/Ring.antt =====
-- The circular byte buffers of sw/protocolrimms.c and sw/display.c: an array with a count and two
-- indices, each of which goes back to 0 when an increment takes it to the end of the array.
pub mod Queue
use ri_mms_linux.Prelude.{
  ℕ, ◌+◌, ◌-◌, List, Option, none, some, ltb, leb, ◌==◌, if◌then◌else◌, get_or, set,
}

pub record Ring : Type 0 where
  pub cells : List ℕ
  pub count : ℕ
  pub inp : ℕ
  pub out : ℕ

-- `i++; if(i>=cap) i=0;`
abbrev pub next_index : ℕ → ℕ → ℕ
next_index cap i = if leb cap (i + 1) then 0 else i + 1

-- What `LoadDataRf` does with one received byte: a full buffer drops it.
unfoldable pub put : ℕ → ℕ → Ring → Ring
put cap x r =
    if ltb r.count cap
    then record r { cells = set r.cells r.inp x; inp = next_index cap r.inp; count = r.count + 1 }
    else r

-- `GetChar`: `none` is its return value -1.
unfoldable pub get : ℕ → Ring → Option (ℕ × Ring)
get cap r =
    if r.count == 0
    then none
    else some (get_or r.cells r.out 0, record r { out = next_index cap r.out; count = r.count - 1 })
