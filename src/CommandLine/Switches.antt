-- ===== src/CommandLine/Switches.antt =====
-- Which options a command line gives.
use ri_mms_linux.Prelude.{
  ℕ, ◌≡◌, refl, sym, ap, ◌∙◌, arith, Bool, true, false, not, ◌||◌, List, [], ◌∷◌, ◌++◌, map,
  append-nil, append_assoc, codes, same_text, if◌then◌else◌,
}
use ri_mms_linux.CommandLine.{
  Options, Line, PidFile, kill_from_pid_file, runs, exits, set_option, option_line, is_kill,
  parse_loop, parse_command_line,
}

abbrev pub has : List ℕ → List (List ℕ) → Bool
has word [] = false
has word (arg ∷ args) = same_text arg word || has word args

abbrev pub NoneKills : List (List ℕ) → Type 0
NoneKills [] = Unit {0}
NoneKills (arg ∷ args) = (is_kill arg ≡ false) × NoneKills args

same_text_eq : (a b : List ℕ) → same_text a b ≡ true → a ≡ b
same_text_eq [] [] e = refl
same_text_eq [] (y ∷ b) e = absurd (ground (arith, e))
same_text_eq (x ∷ a) [] e = absurd (ground (arith, e))
same_text_eq (x ∷ a) (y ∷ b) e = ground (arith, e, same_text_eq a b)

abbrev given : List (List ℕ) → Options → Options
given args o = record {
  debug = o.debug || has (codes "--debug") args;
  logftp = o.logftp || has (codes "--logftp") args;
  demon = if has (codes "--nd") args then false else o.demon;
}

-- An argument is one word only.
same_text_other :
    (arg a b : List ℕ) → same_text arg a ≡ true → same_text a b ≡ false → same_text arg b ≡ false
same_text_other arg a b e other = ap (λ t. same_text t b) (same_text_eq arg a e) ∙ other

given-cons :
    (arg : List ℕ) (args : List (List ℕ)) (o : Options)
    → given args (set_option arg o) ≡ given (arg ∷ args) o
unfolding set_option
given-cons arg args o =
    by_word (same_text arg (codes "--debug")) (same_text arg (codes "--logftp")) refl refl
  where
    by_word :
        (is_debug is_logftp : Bool)
        → same_text arg (codes "--debug") ≡ is_debug
        → same_text arg (codes "--logftp") ≡ is_logftp
        → given args (set_option arg o) ≡ given (arg ∷ args) o
    by_word true is_logftp e e' = ground (
      arith,
      e,
      same_text_other arg (codes "--debug") (codes "--logftp") e refl,
      same_text_other arg (codes "--debug") (codes "--nd") e refl,
    )
    by_word false true e e' =
        ground (arith, e, e', same_text_other arg (codes "--logftp") (codes "--nd") e' refl)
    by_word false false e e' = ground (arith, e, e')

module _ (file : PidFile) where
  parse_loop-given :
      (args : List (List ℕ)) (o : Options) (lines : List Line)
      → NoneKills args
      → parse_loop file args o lines ≡ runs (given args o) (lines ++ map option_line args)
  unfolding parse_loop
  parse_loop-given [] o lines none_kills =
      ap (λ l. runs o l) (sym (append-nil lines)) ∙ ap (λ o'. runs o' (lines ++ [])) (ground arith)
  parse_loop-given (arg ∷ args) o lines (not_kill, none_kills) = rw not_kill (
      parse_loop-given args (set_option arg o) (lines ++ (option_line arg ∷ [])) none_kills
      ∙ ap (λ l. runs (given args (set_option arg o)) l)
          (append_assoc lines (option_line arg ∷ []) (map option_line args))
      ∙ ap (λ o'. runs o' (lines ++ map option_line (arg ∷ args))) (given-cons arg args o))

  parse_loop-kill :
      (args after : List (List ℕ)) (o : Options) (lines : List Line)
      → NoneKills args
      → parse_loop file (args ++ (codes "--kill" ∷ after)) o lines
        ≡ exits (lines ++ (map option_line args ++ (kill_from_pid_file file ∷ [])))
  unfolding parse_loop
  parse_loop-kill [] after o lines none_kills = refl
  parse_loop-kill (arg ∷ args) after o lines (not_kill, none_kills) = rw not_kill (
      parse_loop-kill args after (set_option arg o) (lines ++ (option_line arg ∷ [])) none_kills
      ∙ ap exits (append_assoc lines (option_line arg ∷ []) _))

  -- Of arguments without `--kill`, in any order and number, `--debug` and `--logftp` switch their
  -- options on and `--nd` the daemon off, each exactly if it is among them, and each argument
  -- prints its line. If `--kill` follows, the program exits at it, after the lines of the arguments
  -- before it and that of `killFromPidFile`, whatever stands behind.
  pub parse_command_line_lem :
      (args after : List (List ℕ))
      → NoneKills args
      → (parse_command_line file args
          ≡ runs
              (record {
                debug = has (codes "--debug") args;
                logftp = has (codes "--logftp") args;
                demon = not (has (codes "--nd") args);
              })
              (map option_line args))
        × (parse_command_line file (args ++ (codes "--kill" ∷ after))
            ≡ exits (map option_line args ++ (kill_from_pid_file file ∷ [])))
  unfolding parse_command_line
  parse_command_line_lem args after none_kills =
      let started : Options = record { debug = false; logftp = false; demon = true } in
      (
        parse_loop-given args started [] none_kills
            ∙ ap (λ o. runs o (map option_line args)) (ground arith),
        parse_loop-kill args after started [] none_kills,
      )
