-- ===== src/Modem/Remote.antt =====
-- `RemoteConnection` of sw/modem.c. The answers of `GetRemoteConnection` to the successive polls of
-- one call are input.
pub mod Polls
use ri_mms_linux.Prelude.{ℕ, zero, suc, Bool, true, false, if◌then◌else◌}
use ri_mms_linux.Modem.{Modem, pon, poff, act}

-- The inner loop, at most `n` polls from the `k`-th on; with the number of the next poll.
unfoldable pub wait_online : ℕ → (ℕ → Bool) → ℕ → Bool × ℕ
wait_online zero up k = (false, k)
wait_online (suc n) up k = if up k then (true, suc k) else wait_online n up (suc k)

-- `timer++<15` is tested after each poll.
abbrev pub polls_per_dial : ℕ
polls_per_dial = 16

-- `retry++<5` likewise.
abbrev pub dials : ℕ
dials = 6

-- The outer loop, with `n` dials left.
unfoldable pub redial : ℕ → (ℕ → Bool) → ℕ → Modem → Modem × Bool
redial zero up k m = (m, false)
redial (suc n) up k m =
    let dialed = act pon m in
    let (connected, next) = wait_online polls_per_dial up k in
    if connected then (dialed, true) else redial n up next (act poff dialed)

-- `RemoteConnection`; the flag is whether it returns 1.
unfoldable pub remote_connection : Bool → (ℕ → Bool) → Modem → Modem × Bool
remote_connection true up m = if up 0 then (m, true) else redial dials up 1 m
remote_connection false up m = if up 0 then (act poff m, true) else (m, true)
