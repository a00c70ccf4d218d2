-- ===== src/Shutdown.antt =====
-- The end of `main` of sw/main.c: it waits for each of the four threads, cancels those that do not
-- end, and reboots or switches off.
pub mod Waits
use ri_mms_linux.Prelude.{ℕ, zero, suc, ◌+◌, Bool, true, false, List, [], ◌∷◌, leb, if◌then◌else◌}
use ri_mms_linux.Prelude.Int.{ℤ, pos, ◌==ℤ◌}

-- A thread as `main` sees it: whether its flag is 0 after so many seconds of its wait, what
-- `pthread_join` returns, and whether it leaves `PTHREAD_CANCELED`.
pub record Thread : Type 0 where
  pub stopped : ℕ → Bool
  pub join : ℤ
  pub canceled : Bool

pub record Waited : Type 0 where
  pub seconds : ℕ
  pub cancelled : Bool

-- `while(data.flagexit_RiMMS)`, after `x` seconds.
unfoldable pub wait_thread : ℕ → (ℕ → Bool) → ℕ → Waited
wait_thread zero stopped x = record { seconds = x; cancelled = false }
wait_thread (suc n) stopped x =
    let rest = wait_thread n stopped (x + 1) in
    if stopped x
    then record { seconds = x; cancelled = false }
    else if leb 10 x
    then record { seconds = x + 1; cancelled = true }
    else rest

abbrev pub wait_rounds : ℕ
wait_rounds = 11

-- What the log says.
pub data Ended : Type 0 where
  correctly : Ended
  was_cancelled : Ended
  badly : Ended

unfoldable pub end_thread : Thread → Waited × Ended
end_thread t = (
  wait_thread wait_rounds t.stopped 0,
  if t.join ==ℤ pos 0 then correctly else if t.canceled then was_cancelled else badly,
)

-- RiMMS, comunication, modem and io, in this order.
unfoldable pub end_threads : List Thread → List (Waited × Ended)
end_threads [] = []
end_threads (t ∷ threads) = end_thread t ∷ end_threads threads

pub data Farewell : Type 0 where
  reboot : Farewell
  shutdown : Farewell
  stop : Farewell

abbrev pub farewell : Bool → Bool → Farewell
farewell flagrebootsystem flagpoweroffsystem =
    if flagrebootsystem then reboot else if flagpoweroffsystem then shutdown else stop

-- The seconds that `main` sleeps.
unfoldable pub slept : List (Waited × Ended) → ℕ
slept [] = 0
slept ((w, e) ∷ ends) = w.seconds + slept ends
