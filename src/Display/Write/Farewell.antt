-- ===== src/Display/Write/Farewell.antt =====
-- What `WriteDisplay` shows, and what `main` leaves on the display.
use ri_mms_linux.Prelude.{
  ℕ, ◌+◌, ◌≤◌, ◌≡◌, refl, ap, ◌∙◌, arith, Bool, true, false, List, ◌++◌, length, ltb, if◌then◌else◌,
}
use ri_mms_linux.Prelude.Int.{pos}
use ri_mms_linux.Display.Panel.{Instruction, write_to_display}
use ri_mms_linux.Display.Shows.{
  Screen, show, show-append, panel_of, write_to_display-shown, write_to_display-kept,
}
use ri_mms_linux.Display.Gest.{Display}
use ri_mms_linux.Display.Write.{
  get_keyb_status, Meets, Written, returns, write_taken, write_display, then_write, stopped_text,
  blank_text, reboot_text, shutdown_text, show_farewell,
}
-- A display with nobody in `WriteDisplay` or `GestDisplay`, with these lines and zeros behind them.
use ri_mms_linux.Display.Write.Lines.{store_text-clear_line}

abbrev pub ready : List ℕ → List ℕ → List ℕ → List ℕ → Display → Display
ready upper lower mem_upper mem_lower d = record d {
  panel = panel_of upper lower mem_upper mem_lower 0 0;
  displaybusy = false;
  displaygest = false;
}

-- The call has returned 0, and the display and its two copies have these lines.
pub record Wrote (upper lower : List ℕ) (s : Screen) (w : Written) : Type 0 where
  pub sent : List Instruction
  pub d : Display
  pub written : w ≡ returns (pos 0) sent (ready upper lower upper lower d)
  pub shows_upper : (show sent s).line_of 0 ≡ upper
  pub shows_lower : (show sent s).line_of 1 ≡ lower

module _ (meets : Meets) (no_menu : get_keyb_status meets.keyboard ≡ false) where
  write_display-taken :
      (y : ℕ) (text : List ℕ) (d : Display)
      → y ≤ 1
      → length text ≡ 16
      → d.displaybusy ≡ false
      → write_display meets 0 y text text d ≡ write_taken meets.alim 0 y text d
  unfolding write_display
  write_display-taken y text d low text_16 not_busy =
      let short : ltb 16 (length text) ≡ false = ground arith in
      let short' : ltb 34 (length text) ≡ false = ground arith in
      let low' : ltb 1 y ≡ false = ground arith in
      rw no_menu (rw short (rw not_busy (rw low' (rw short' refl))))

-- What `Backlight` leaves the light at.
abbrev light : Bool → Display → Display
light alim d = record d { backlight = if alim then true else d.backlight }

module _ (alim : Bool) (u l mu ml text : List ℕ) (d : Display) (u_16 : length u ≡ 16)
    (l_16 : length l ≡ 16) (mu_16 : length mu ≡ 16) (ml_16 : length ml ≡ 16)
    (text_16 : length text ≡ 16) where
  fits : ltb 16 (length text + 0) ≡ false
  fits = ground (arith, text_16)

  write_taken-upper :
      write_taken alim 0 0 text (ready u l mu ml d)
      ≡ returns
          (pos 0)
          (write_to_display (panel_of text l mu ml 0 0)).0
          (ready text l text l (light alim d))
  unfolding write_taken
  write_taken-upper = rw fits (
      rw (store_text-clear_line u text u_16 text_16) (
        ap
          (λ p.
            returns (pos 0) (write_to_display (panel_of text l mu ml 0 0)).0
              (record (ready text l text l (light alim d)) { panel = p }))
          (write_to_display-kept text l mu ml 0 0 (omega (arith, text_16, mu_16))
            (omega (arith, l_16, ml_16)))))

  write_taken-lower :
      write_taken alim 0 1 text (ready u l mu ml d)
      ≡ returns
          (pos 0)
          (write_to_display (panel_of u text mu ml 0 0)).0
          (ready u text u text (light alim d))
  unfolding write_taken
  write_taken-lower = rw fits (
      rw (store_text-clear_line l text l_16 text_16) (
        ap
          (λ p.
            returns (pos 0) (write_to_display (panel_of u text mu ml 0 0)).0
              (record (ready u text u text (light alim d)) { panel = p }))
          (write_to_display-kept u text mu ml 0 0 (omega (arith, u_16, mu_16))
            (omega (arith, text_16, ml_16)))))

  module _ (meets : Meets) (no_menu : get_keyb_status meets.keyboard ≡ false)
      (same : meets.alim ≡ alim) (s : Screen) (upper_on : s.line_of 0 ≡ mu)
      (lower_on : s.line_of 1 ≡ ml) where
    write_upper : Wrote text l s (write_display meets 0 0 text text (ready u l mu ml d))
    write_upper =
        let shown =
          write_to_display-shown text l mu ml 0 0 s text_16 l_16 mu_16 ml_16 upper_on lower_on in
        record {
          sent = (write_to_display (panel_of text l mu ml 0 0)).0;
          d = light alim d;
          written =
              write_display-taken meets no_menu 0 text (ready u l mu ml d) (omega arith) text_16
                refl
              ∙ ap (λ b. write_taken b 0 0 text (ready u l mu ml d)) same
              ∙ write_taken-upper;
          shows_upper = shown.0;
          shows_lower = shown.1;
        }

    write_lower : Wrote u text s (write_display meets 0 1 text text (ready u l mu ml d))
    write_lower =
        let shown =
          write_to_display-shown u text mu ml 0 0 s u_16 text_16 mu_16 ml_16 upper_on lower_on in
        record {
          sent = (write_to_display (panel_of u text mu ml 0 0)).0;
          d = light alim d;
          written =
              write_display-taken meets no_menu 1 text (ready u l mu ml d) (omega arith) text_16
                refl
              ∙ ap (λ b. write_taken b 0 1 text (ready u l mu ml d)) same
              ∙ write_taken-lower;
          shows_upper = shown.0;
          shows_lower = shown.1;
        }

-- A call behind another.
then_write-Wrote :
    (u l u' l' : List ℕ) (s : Screen) (w : Written) (next : Display → Written)
    → Wrote u l s w
    → ((d : Display) (t : Screen)
        → t.line_of 0 ≡ u
        → t.line_of 1 ≡ l
        → Wrote u' l' t (next (ready u l u l d)))
    → Wrote u' l' s (then_write w next)
then_write-Wrote u l u' l' s w next first second =
    let later = second first.d (show first.sent s) first.shows_upper first.shows_lower in
    let joined = show-append first.sent later.sent s in
    record {
      sent = first.sent ++ later.sent;
      d = later.d;
      written =
          ap (λ w'. then_write w' next) first.written
          ∙ ap (λ w'. then_write (returns (pos 0) first.sent (ready u l u l first.d)) (λ x. w'))
              later.written;
      shows_upper = ap (λ (t : Screen). t.line_of 0) joined ∙ later.shows_upper;
      shows_lower = ap (λ (t : Screen). t.line_of 1) joined ∙ later.shows_lower;
    }

-- The second line in the end.
abbrev pub last_text : Bool → Bool → List ℕ
last_text flagrebootsystem flagpoweroffsystem =
    if flagrebootsystem
    then reboot_text
    else if flagpoweroffsystem
    then shutdown_text
    else blank_text

-- With no menu open and nobody else writing, the last calls of `main` return 0, and a display that
-- showed what was last sent to it shows `Centralina ferma` and, below, `Riavvio sistema` if the
-- system is to be booted again, else `Arresto sistema` if it is to be switched off, else nothing,
-- whatever its lines were. Nobody is left waiting.
pub show_farewell-Wrote :
    (meets : Meets) (flagrebootsystem flagpoweroffsystem : Bool) (u l mu ml : List ℕ) (d : Display)
    (s : Screen)
    → get_keyb_status meets.keyboard ≡ false
    → length u ≡ 16
    → length l ≡ 16
    → length mu ≡ 16
    → length ml ≡ 16
    → s.line_of 0 ≡ mu
    → s.line_of 1 ≡ ml
    → Wrote stopped_text
        (last_text flagrebootsystem flagpoweroffsystem)
        s
        (show_farewell meets flagrebootsystem flagpoweroffsystem (ready u l mu ml d))
unfolding show_farewell
show_farewell-Wrote meets reboot poweroff u l mu ml d s no_menu u_16 l_16 mu_16 ml_16 up low =
    by_flags reboot poweroff
  where
    lower_next :
        (text last : List ℕ)
        → length text ≡ 16
        → length last ≡ 16
        → (d' : Display) (t : Screen) → t.line_of 0 ≡ stopped_text
        → t.line_of 1 ≡ last
        → Wrote stopped_text text t
            (write_display meets 0 1 text text (ready stopped_text last stopped_text last d'))
    lower_next text last text_16 last_16 d' t up' low' =
        write_lower meets.alim stopped_text last stopped_text last text d' refl last_16 refl last_16
          text_16 meets no_menu refl t up' low'

    stopped : Wrote stopped_text blank_text s (
        then_write
          (write_display meets 0 0 stopped_text stopped_text (ready u l mu ml d))
          (write_display meets 0 1 blank_text blank_text))
    stopped =
        then_write-Wrote stopped_text l stopped_text blank_text s _ _
          (write_upper meets.alim u l mu ml stopped_text d u_16 l_16 mu_16 ml_16 refl meets no_menu
            refl s up low)
          (lower_next blank_text l refl l_16)

    with_last :
        (text : List ℕ)
        → length text ≡ 16
        → Wrote stopped_text text s (
            then_write
              (then_write
                (write_display meets 0 0 stopped_text stopped_text (ready u l mu ml d))
                (write_display meets 0 1 blank_text blank_text))
              (write_display meets 0 1 text text))
    with_last text text_16 =
        then_write-Wrote stopped_text blank_text stopped_text text s _ _ stopped
          (lower_next text blank_text text_16 refl)

    by_flags :
        (r p : Bool)
        → Wrote stopped_text (last_text r p) s (show_farewell meets r p (ready u l mu ml d))
    by_flags true p = with_last reboot_text refl
    by_flags false true = with_last shutdown_text refl
    by_flags false false = stopped
