-- ===== src/Display/Write/Busy.antt =====
-- What becomes of `displaybusy` after a text that does not fit.
use ri_mms_linux.Prelude.{
  ℕ, ◌+◌, ◌≤◌, ◌<◌, ◌≡◌, ◌≢◌, refl, arith, Bool, true, false, [], List, length, ltb,
}
use ri_mms_linux.Prelude.Int.{ℤ, pos, negsuc}
use ri_mms_linux.Display.Gest.{Display, clear_line}
use ri_mms_linux.Display.Write.{
  get_keyb_status, Meets, returns, line_at, put_line, write_taken, write_display,
}

write_display-busy :
    (meets : Meets) (x y : ℕ) (str text : List ℕ) (d : Display)
    → meets.freed ≡ false
    → d.displaybusy ≡ true
    → (code : ℤ) × (write_display meets x y str text d ≡ returns code [] d) × (code ≢ pos 0)
unfolding write_display
write_display-busy meets x y str text d kept busy =
    by_tests (get_keyb_status meets.keyboard) (ltb 16 (length str)) refl refl
  where
    by_tests :
        (menu long : Bool)
        → get_keyb_status meets.keyboard ≡ menu
        → ltb 16 (length str) ≡ long
        → (code : ℤ) × (write_display meets x y str text d ≡ returns code [] d) × (code ≢ pos 0)
    by_tests true long e e' = (pos 1, rw e refl, λ h. cc)
    by_tests false true e e' = (negsuc 0, rw e (rw e' refl), λ h. cc)
    by_tests false false e e' = (negsuc 0, ground (arith, e, e', kept, busy), λ h. cc)

-- A call with a text that does not fit on its line returns -1 and leaves `displaybusy` set; while
-- it is set and no other thread clears it, any further call returns something other than 0, sends
-- nothing and changes nothing.
pub write_display_stuck :
    (meets meets' : Meets) (x y x' y' : ℕ) (str text str' text' : List ℕ) (d : Display)
    → get_keyb_status meets.keyboard ≡ false
    → d.displaybusy ≡ false
    → length str ≤ 16
    → y ≤ 1
    → length text ≤ 34
    → 16 < length text + x
    → meets'.freed ≡ false
    → (d' : Display) × (write_display meets x y str text d ≡ returns (negsuc 0) [] d')
      × (code : ℤ) × (write_display meets' x' y' str' text' d' ≡ returns code [] d')
      × (code ≢ pos 0)
unfolding write_display write_taken
write_display_stuck meets meets' x y x' y' str text str' text' d no_menu not_busy short low fits
      long kept =
    let short' : ltb 16 (length str) ≡ false = ground (arith, short) in
    let low' : ltb 1 y ≡ false = ground (arith, low) in
    let fits' : ltb 34 (length text) ≡ false = ground (arith, fits) in
    let long' : ltb 16 (length text + x) ≡ true = ground (arith, long) in
    let d' : Display = record d {
      panel = put_line y (clear_line (line_at y d.panel)) d.panel;
      displaybusy = true;
    } in
    let (code, same, failed) = write_display-busy meets' x' y' str' text' d' kept refl in
    (
      d',
      rw no_menu (rw short' (rw not_busy (rw low' (rw fits' (rw long' refl))))),
      code,
      same,
      failed,
    )
