-- ===== src/Shutdown/Waits.antt =====
-- How long `main` waits for its threads.
use ri_mms_linux.Prelude.{
  ℕ, zero, suc, ◌+◌, ◌*◌, ◌≤◌, ◌<◌, ◌≡◌, refl, ap, ◌∙◌, ◌↔◌, arith, Bool, true, false, List, [],
  ◌∷◌, length, leb, if◌then◌else◌,
}
use ri_mms_linux.Shutdown.{Thread, Waited, wait_thread, Ended, end_thread, end_threads, slept}

-- From second `x` on.
Waits : (ℕ → Bool) → ℕ → Waited → Type 0
Waits stopped x w =
    (w.seconds ≤ 11) × ((w.cancelled ≡ true) ↔ ((i : ℕ) → x ≤ i → i ≤ 10 → stopped i ≡ false))

wait_thread-Waits :
    (n : ℕ) (stopped : ℕ → Bool) (x : ℕ)
    → n + x ≡ 11
    → 0 < n
    → Waits stopped x (wait_thread n stopped x)
unfolding wait_thread Waits
wait_thread-Waits zero stopped x e h = absurd (omega arith)
wait_thread-Waits (suc n) stopped x e h =
    by_tests (stopped x) (leb 10 x) refl refl
      (λ early. wait_thread-Waits n stopped (x + 1) (omega arith) (omega (arith, early)))
  where
    by_tests :
        (here late : Bool)
        → stopped x ≡ here
        → leb 10 x ≡ late
        → (x < 10 → Waits stopped (x + 1) (wait_thread n stopped (x + 1)))
        → Waits stopped x (
            if here
            then record { seconds = x; cancelled = false }
            else if late
            then record { seconds = x + 1; cancelled = true }
            else wait_thread n stopped (x + 1))
    by_tests true late at_x at_10 later = (
      omega arith,
      (
        λ c. absurd (ground arith),
        λ none. absurd (ground (arith, none x (omega arith) (omega arith))),
      ),
    )
    by_tests false true at_x at_10 later =
        let last : 10 ≤ x = ground (arith, at_10) in
        (
          omega arith,
          (
            λ c i low high.
                (let same : i ≡ x = omega (arith, low, high, last) in ap stopped same ∙ at_x),
            λ none. refl,
          ),
        )
    by_tests false false at_x at_10 later =
        let (short, (back, forth)) = later (ground (arith, at_10)) in
        (
          short,
          (
            λ c i low high. from_here i low at_x (λ next. back c i next high),
            λ none. forth (λ i low high. none i (omega arith) high),
          ),
        )
      where
        from_here :
            (i : ℕ)
            → x ≤ i
            → stopped x ≡ false
            → (x + 1 ≤ i → stopped i ≡ false)
            → stopped i ≡ false
        from_here i low here next = by_next (leb (x + 1) i) refl
          where
            by_next : (b : Bool) → leb (x + 1) i ≡ b → stopped i ≡ false
            by_next true e = next (ground (arith, e))
            by_next false e = let same : i ≡ x = ground (arith, e, low) in ap stopped same ∙ here

-- A thread is cancelled exactly if its flag is set at each of the eleven looks.
pub AllJudged : List Thread → List (Waited × Ended) → Type 0
AllJudged (t ∷ threads) ((w, e) ∷ ends) =
    ((w.cancelled ≡ true) ↔ ((i : ℕ) → i ≤ 10 → t.stopped i ≡ false)) × AllJudged threads ends
AllJudged threads ends = Unit

-- `main` sleeps at most eleven seconds for each of its threads, whatever they do, and cancels exactly
-- those whose flags are still set after each of the seconds 0 to 10.
pub end_threads-AllJudged :
    (threads : List Thread)
    → (slept (end_threads threads) ≤ 11 * length threads) × AllJudged threads (end_threads threads)
unfolding end_threads end_thread slept AllJudged Waits
end_threads-AllJudged [] = (omega arith, tt)
end_threads-AllJudged (t ∷ threads) =
    let (short, (back, forth)) = wait_thread-Waits 11 t.stopped 0 refl (omega arith) in
    let (all_short, judged) = end_threads-AllJudged threads in
    (
      omega (arith, short, all_short),
      (
        (λ c i high. back c i (omega arith) high, λ none. forth (λ i low high. none i high)),
        judged,
      ),
    )
