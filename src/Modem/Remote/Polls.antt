-- ===== src/Modem/Remote/Polls.antt =====
-- When `RemoteConnection` succeeds: its two nested loops ask for the line 97 times at most.
use ri_mms_linux.Prelude.{
  ℕ, zero, suc, ◌+◌, ◌*◌, ◌<◌, ◌≤◌, ◌≡◌, ◌↔◌, ◌⊎◌, inl, inr, refl, ap, sym, ◌∙◌, arith, Bool, true,
  false, ◌||◌, Bool-cases,
}
use ri_mms_linux.Modem.{Modem, pon, poff, act}
use ri_mms_linux.Modem.Remote.{wait_online, polls_per_dial, dials, redial, remote_connection}

-- Whether one of the `n` polls from the `k`-th on finds the line up.
abbrev pub any_up : ℕ → (ℕ → Bool) → ℕ → Bool
any_up zero up k = false
any_up (suc n) up k = up k || any_up n up (suc k)

any_up_sound :
    (n : ℕ) (up : ℕ → Bool) (k : ℕ)
    → any_up n up k ≡ true
    → (i : ℕ) × (k ≤ i) × (i < k + n) × (up i ≡ true)
any_up_sound zero up k h = absurd (ground arith)
any_up_sound (suc n) up k h = elim (Bool-cases (up k)) [
  | inl e ↦ (k, omega arith, omega arith, e)
  | inr e ↦
      let (i, low, high, p) = any_up_sound n up (suc k) (rest e) in (i, omega arith, omega arith, p)
]
  where
    rest : up k ≡ false → any_up n up (suc k) ≡ true
    rest e = ap (λ b. b || any_up n up (suc k)) (sym e) ∙ h

any_up_complete :
    (n : ℕ) (up : ℕ → Bool) (k i : ℕ) → k ≤ i → i < k + n → up i ≡ true → any_up n up k ≡ true
any_up_complete zero up k i low high h = absurd (omega arith)
any_up_complete (suc n) up k i low high h = elim first [
  | inl e ↦ rw (ap up e ∙ h) refl
  | inr lt ↦ rw (any_up_complete n up (suc k) i lt (omega arith) h) (Bool-or (up k))
]
  where
    first : (k ≡ i) ⊎ (suc k ≤ i)
    first = omega arith

    Bool-or : (b : Bool) → (b || true) ≡ true
    Bool-or true = refl
    Bool-or false = refl

any_up-add :
    (n m : ℕ) (up : ℕ → Bool) (k : ℕ) → any_up (n + m) up k ≡ (any_up n up k || any_up m up (k + n))
any_up-add zero m up k = ap (λ t. any_up t up k) count ∙ ap (any_up m up) from
  where
    count : 0 + m ≡ m
    count = omega arith

    from : k ≡ k + 0
    from = omega arith
any_up-add (suc n) m up k =
    ap (λ t. any_up t up k) count
    ∙ ap (λ b. up k || b)
        (any_up-add n m up (suc k) ∙ ap (λ t. any_up n up (suc k) || any_up m up t) from)
    ∙ assoc (up k) _ _
  where
    count : suc n + m ≡ suc (n + m)
    count = omega arith

    from : suc k + n ≡ k + suc n
    from = omega arith

    assoc : (b c d : Bool) → (b || (c || d)) ≡ ((b || c) || d)
    assoc true c d = refl
    assoc false c d = refl

-- `wait_online` by the polls it makes.
wait_online_up : (n : ℕ) (up : ℕ → Bool) (k : ℕ) → (wait_online n up k).0 ≡ any_up n up k
unfolding wait_online
wait_online_up zero up k = refl
wait_online_up (suc n) up k = elim (Bool-cases (up k)) [
  | inl e ↦ rw e refl
  | inr e ↦ rw e (wait_online_up n up (suc k))
]

wait_online_next :
    (n : ℕ) (up : ℕ → Bool) (k : ℕ) → any_up n up k ≡ false → (wait_online n up k).1 ≡ k + n
unfolding wait_online
wait_online_next zero up k h = omega arith
wait_online_next (suc n) up k h = ground (arith, wait_online_next n up (suc k))

redial_up :
    (n : ℕ) (up : ℕ → Bool) (k : ℕ) (m : Modem)
    → (redial n up k m).1 ≡ any_up (n * polls_per_dial) up k
unfolding redial
redial_up zero up k m = refl
redial_up (suc n) up k m =
    tried (redial_up n up (k + polls_per_dial) (act poff (act pon m))) (any_up polls_per_dial up k)
      refl
    ∙ sym (any_up-add polls_per_dial (n * polls_per_dial) up k)
    ∙ ap (λ t. any_up t up k) (omega arith)
  where
    tried :
        (redial n up (k + polls_per_dial) (act poff (act pon m))).1
          ≡ any_up (n * polls_per_dial) up (k + polls_per_dial)
        → (b : Bool) → any_up polls_per_dial up k ≡ b
        → (redial (suc n) up k m).1 ≡ (b || any_up (n * polls_per_dial) up (k + polls_per_dial))
    tried ih true e = rw (wait_online_up polls_per_dial up k ∙ e) refl
    tried ih false e =
        rw (wait_online_up polls_per_dial up k ∙ e) (rw (wait_online_next polls_per_dial up k e) ih)

-- Called to go online, `RemoteConnection` returns 1 exactly when the line is up at one of its first
-- 97 polls: one before it dials, and 16 after each of the six dials.
pub remote_connection_lem :
    (up : ℕ → Bool) (m : Modem)
    → ((remote_connection true up m).1 ≡ true) ↔ ((i : ℕ) × (i < 97) × (up i ≡ true))
unfolding remote_connection
remote_connection_lem up m = (
  λ h. let (i, low, high, p) = any_up_sound 97 up 0 (sym (any_97 (up 0) refl) ∙ h) in (i, high, p),
  λ (i, high, p). any_97 (up 0) refl ∙ any_up_complete 97 up 0 i (omega arith) (omega arith) p,
)
  where
    any_97 : (b : Bool) → up 0 ≡ b → (remote_connection true up m).1 ≡ any_up 97 up 0
    any_97 true e = rw e refl
    any_97 false e = rw e (redial_up dials up 1 m)
