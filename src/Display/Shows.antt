-- ===== src/Display/Shows.antt =====
-- What the instructions of `WriteToDisplay` put on the display.
use ri_mms_linux.Prelude.{
  ℕ, ◌+◌, ◌≤◌, ◌≡◌, ◌≢◌, refl, sym, ap, ◌∙◌, arith, false, List, [], ◌∷◌, ◌++◌, length,
  length-append, append_assoc, set, set-append, ltb, ◌==◌, ==_self, ==_iff, ==_of_ne, Bool-cases,
  inl, inr, if◌then◌else◌,
}
use mathlib.Core.Path.{subst}
use ri_mms_linux.Display.Panel.{
  Instruction, cursor, put_char, lcdsetcurpos, write_line, keep_line, Panel, write_to_display,
}

-- A display: its lines, and the position of the next character, which moves right with each one.
pub record Screen : Type 0 where
  pub line_of : ℕ → List ℕ
  pub at_x : ℕ
  pub at_y : ℕ

abbrev pub show_one : Instruction → Screen → Screen
show_one (cursor x y) s = record s { at_x = x; at_y = y }
show_one (put_char c) s = record s {
  line_of = λ k. if k == s.at_y then set (s.line_of k) s.at_x c else s.line_of k;
  at_x = s.at_x + 1;
}

abbrev pub show : List Instruction → Screen → Screen
show [] s = s
show (i ∷ is) s = show is (show_one i s)

pub show-append : (is js : List Instruction) (s : Screen) → show (is ++ js) s ≡ show js (show is s)
show-append [] js s = refl
show-append (i ∷ is) js s = show-append is js (show_one i s)

-- A character put on the display.
abbrev put_at : ℕ → ℕ → ℕ → Screen → Screen
put_at x y c s = show_one (put_char c) (show_one (cursor x y) s)

module _ (y : ℕ) where
  write_line-same :
      (x c : ℕ) (line mem : List ℕ)
      → write_line y x (c ∷ line) (c ∷ mem) ≡ write_line y (x + 1) line mem
  unfolding write_line
  write_line-same x c line mem = rw (==_self c) refl

  write_line-other :
      (x c d : ℕ) (line mem : List ℕ)
      → y ≤ 1
      → x ≤ 15
      → (c == d) ≡ false
      → write_line y x (c ∷ line) (d ∷ mem)
        ≡ cursor x y ∷ put_char c ∷ write_line y (x + 1) line mem
  unfolding write_line lcdsetcurpos
  write_line-other x c d line mem low left other =
      let low' : ltb 1 y ≡ false = ground arith in
      let left' : ltb 15 x ≡ false = ground arith in rw other (rw low' (rw left' refl))

  line_of-put_at :
      (done mem : List ℕ) (c d : ℕ) (s : Screen)
      → s.line_of y ≡ done ++ (d ∷ mem)
      → (put_at (length done) y c s).line_of y ≡ (done ++ (c ∷ [])) ++ mem
  line_of-put_at done mem c d s e = rw (==_self y, e) (set-append done d mem c)

  write_line-last : (x z : ℕ) → write_line y x (z ∷ []) (z ∷ []) ≡ []
  unfolding write_line
  write_line-last x z = rw (==_self z) refl

  -- The line `y` of the display is `text`, the other lines are as on `before`.
  record Shows (text : List ℕ) (before now : Screen) : Type 0 where
    here : now.line_of y ≡ text
    others : (k : ℕ) → k ≢ y → now.line_of k ≡ before.line_of k

  put_at-Shows :
      (text : List ℕ) (x c : ℕ) (s now : Screen)
      → Shows text (put_at x y c s) now
      → Shows text s now
  put_at-Shows text x c s now w = record {
    here = w.here;
    others = λ k other. w.others k other ∙ rw (==_of_ne k y other) refl;
  }

  -- The last cell, at column 16, is not on the display; it must not differ.
  write_line-Shows :
      (line mem done : List ℕ) (z : ℕ) (s : Screen)
      → y ≤ 1
      → length line ≡ length mem
      → length done + length line ≤ 16
      → s.line_of y ≡ done ++ mem
      → Shows
          (done ++ line)
          s
          (show (write_line y (length done) (line ++ (z ∷ [])) (mem ++ (z ∷ []))) s)
  write_line-Shows [] [] done z s low same fits e =
      subst (λ t. Shows (done ++ []) s (show t s)) (sym (write_line-last (length done) z))
        (record { here = e; others = λ k other. refl })
  write_line-Shows [] (d ∷ mem) done z s low same fits e = absurd (omega arith)
  write_line-Shows (c ∷ line) [] done z s low same fits e = absurd (omega arith)
  write_line-Shows (c ∷ line) (d ∷ mem) done z s low same fits e =
      let lined = line ++ (z ∷ []) in
      let kept = mem ++ (z ∷ []) in
      let longer : length (done ++ (c ∷ [])) ≡ length done + 1 =
        omega (arith, length-append done (c ∷ [])) in
      let onwards : (t : Screen)
          → t.line_of y ≡ (done ++ (c ∷ [])) ++ mem
          → Shows (done ++ (c ∷ line)) t (show (write_line y (length done + 1) lined kept) t) =
        λ t e'.
          subst (λ text. Shows text t (show (write_line y (length done + 1) lined kept) t))
            (append_assoc done (c ∷ []) line)
            (subst (λ n. Shows ((done ++ (c ∷ [])) ++ line) t (show (write_line y n lined kept) t))
              longer
              (write_line-Shows line mem (done ++ (c ∷ [])) z t low (omega arith) (omega arith)
                e')) in
      elim (Bool-cases (c == d)) [
        | inl equal ↦
            let eq : c ≡ d = (==_iff c d).0 equal in
            subst (λ t. Shows (done ++ (c ∷ line)) s (show t s))
              (sym (
                subst
                  (λ d'.
                    write_line y (length done) (c ∷ lined) (d' ∷ kept)
                    ≡ write_line y (length done + 1) lined kept)
                  eq (write_line-same (length done) c lined kept)))
              (onwards s
                (e ∙ ap (λ b. done ++ (b ∷ mem)) (sym eq) ∙ sym (append_assoc done (c ∷ []) mem)))
        | inr other ↦
            subst (λ t. Shows (done ++ (c ∷ line)) s (show t s))
              (sym (write_line-other (length done) c d lined kept low (omega arith) other))
              (put_at-Shows (done ++ (c ∷ line)) (length done) c s _
                (onwards (put_at (length done) y c s) (line_of-put_at done mem c d s e)))
      ]

  write_line-nothing : (x : ℕ) (line : List ℕ) → write_line y x line line ≡ []
  unfolding write_line
  write_line-nothing x [] = refl
  write_line-nothing x (c ∷ line) = rw (==_self c) (write_line-nothing (x + 1) line)

keep_line-line : (line mem : List ℕ) → length line ≡ length mem → keep_line line mem ≡ line
unfolding keep_line
keep_line-line [] [] same = refl
keep_line-line [] (d ∷ mem) same = absurd (omega arith)
keep_line-line (c ∷ line) [] same = absurd (omega arith)
keep_line-line (c ∷ line) (d ∷ mem) same =
    let first : (if c == d then d else c) ≡ c = ground arith in
    rw first (ap (λ t. c ∷ t) (keep_line-line line mem (omega arith)))

-- A panel with these lines, of 16 characters and a last cell that nothing has changed.
abbrev pub panel_of : List ℕ → List ℕ → List ℕ → List ℕ → ℕ → ℕ → Panel
panel_of upper lower mem_upper mem_lower z w = record {
  upper = upper ++ (z ∷ []);
  lower = lower ++ (w ∷ []);
  mem_upper = mem_upper ++ (z ∷ []);
  mem_lower = mem_lower ++ (w ∷ []);
}

-- From a display that shows what `displaymemline1` says, the instructions of `WriteToDisplay` make
-- one that shows the two lines of `displayline1`, whatever they were; and a second call sends
-- nothing. The lines have 16 characters, and their 17th cells, which are not on the display, must
-- not differ.
pub write_to_display-shown :
    (upper lower mem_upper mem_lower : List ℕ) (z w : ℕ) (s : Screen)
    → length upper ≡ 16
    → length lower ≡ 16
    → length mem_upper ≡ 16
    → length mem_lower ≡ 16
    → s.line_of 0 ≡ mem_upper
    → s.line_of 1 ≡ mem_lower
    → ((show (write_to_display (panel_of upper lower mem_upper mem_lower z w)).0 s).line_of 0
        ≡ upper)
      × ((show (write_to_display (panel_of upper lower mem_upper mem_lower z w)).0 s).line_of 1
          ≡ lower)
      × ((write_to_display (write_to_display (panel_of upper lower mem_upper mem_lower z w)).1).0
          ≡ [])
unfolding write_to_display
write_to_display-shown u l mu ml z w s lu ll lmu lml e0 e1 =
    let first = write_line-Shows 0 u mu [] z s (omega arith) (omega arith) (omega arith) e0 in
    let s1 = show (write_line 0 0 (u ++ (z ∷ [])) (mu ++ (z ∷ []))) s in
    let second =
      write_line-Shows 1 l ml [] w s1 (omega arith) (omega arith) (omega arith)
        (first.others 1 (λ h. absurd (omega arith)) ∙ e1) in
    let both =
      show-append (write_line 0 0 (u ++ (z ∷ [])) (mu ++ (z ∷ [])))
        (write_line 1 0 (l ++ (w ∷ [])) (ml ++ (w ∷ []))) s in
    let kept_upper =
      keep_line-line (u ++ (z ∷ [])) (mu ++ (z ∷ []))
        (omega (arith, length-append u (z ∷ []), length-append mu (z ∷ []))) in
    let kept_lower =
      keep_line-line (l ++ (w ∷ [])) (ml ++ (w ∷ []))
        (omega (arith, length-append l (w ∷ []), length-append ml (w ∷ []))) in
    (
      ap (λ (t : Screen). t.line_of 0) both
          ∙ second.others 0 (λ h. absurd (omega arith))
          ∙ first.here,
      ap (λ (t : Screen). t.line_of 1) both ∙ second.here,
      ap
            (λ m.
              write_line 0 0 (u ++ (z ∷ [])) m
              ++ write_line 1 0 (l ++ (w ∷ [])) (keep_line (l ++ (w ∷ [])) (ml ++ (w ∷ []))))
            kept_upper
          ∙ ap
              (λ m.
                write_line 0 0 (u ++ (z ∷ [])) (u ++ (z ∷ [])) ++ write_line 1 0 (l ++ (w ∷ [])) m)
              kept_lower
          ∙ rw (write_line-nothing 0 0 (u ++ (z ∷ [])), write_line-nothing 1 0 (l ++ (w ∷ [])))
              refl,
    )

-- After a call both copies of the lines agree.
pub write_to_display-kept :
    (upper lower mem_upper mem_lower : List ℕ) (z w : ℕ)
    → length upper ≡ length mem_upper
    → length lower ≡ length mem_lower
    → (write_to_display (panel_of upper lower mem_upper mem_lower z w)).1
      ≡ panel_of upper lower upper lower z w
unfolding write_to_display
write_to_display-kept u l mu ml z w same_u same_l =
    let kept_upper =
      keep_line-line (u ++ (z ∷ [])) (mu ++ (z ∷ []))
        (omega (arith, length-append u (z ∷ []), length-append mu (z ∷ []))) in
    let kept_lower =
      keep_line-line (l ++ (w ∷ [])) (ml ++ (w ∷ []))
        (omega (arith, length-append l (w ∷ []), length-append ml (w ∷ []))) in
    rw (kept_upper, kept_lower) refl
