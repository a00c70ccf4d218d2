-- ===== src/Net.antt =====
-- `InitRiMMSNet` and `GestRiMMSNet` of sw/rimmsnet.c: the datagrams through which a server sends
-- commands. What the sockets and the clock give is an argument; opening the socket is left out.
pub mod Lines
use ri_mms_linux.Prelude.{
  c_string, ℕ, Bool, true, false, not, List, [], ◌∷◌, ◌++◌, Option, none, some, length, drop,
  replicate, ◌==◌, if◌then◌else◌,
}
use ri_mms_linux.Prelude.Int.{ℤ, pos, ◌-ℤ◌, leb_ℤ, ltb_ℤ}

-- `struct _NET`, the fields that `GestRiMMSNet` uses.
pub record Net : Type 0 where
  pub status : ℕ
  pub timerconnect : ℤ
  pub rxbuff : List ℕ

-- What a call does, in order; a command is the text handed to `ParserCommand`.
pub data Deed : Type 0 where
  opened closed sends_ping sends_reply : Deed
  runs : List ℕ → Deed

-- What a call sees: `GetClockSecond`, `GetModemStatus`, whether `OpenRiMMSNet` returns 0 or more, the
-- bytes of `recvfrom` (`none` if there are none), and what the two kinds of `sendto` return.
pub record Seen : Type 0 where
  pub clock : ℤ
  pub online : Bool
  pub opens : Bool
  pub received : Option (List ℕ)
  pub ping_sent : ℤ
  pub reply_sent : ℤ

unfoldable pub init_ri_mms_net : ℤ → Net → Net
init_ri_mms_net clock n = record n { status = 0; timerconnect = clock }

abbrev pub rxbuff_size : ℕ
rxbuff_size = 1024

-- `recvfrom` writes over the start of the buffer and puts no zero behind.
abbrev pub over_start : List ℕ → List ℕ → List ℕ
over_start bytes cells = bytes ++ drop (length bytes) cells

-- `CloseRiMMSNet(); RiMMSNet.status=0;`
abbrev pub close_net : Net → Net × List Deed
close_net n = (record n { status = 0 }, closed ∷ [])

-- One part of the handler after another.
infixl 20 ◌then_net◌
abbrev pub ◌then_net◌ : Net × List Deed → (Net → Net × List Deed) → Net × List Deed
(n, deeds) then_net next = ((next n).0, deeds ++ (next n).1)

module _ (seen : Seen) where
  -- Case 0: more than five seconds since the last try. `OpenRiMMSNet` fills the buffer with `'0'`
  -- first.
  unfoldable pub connect : Net → Net × List Deed
  connect n =
      let tried = record n { timerconnect = seen.clock } in
      let filled = record tried { rxbuff = replicate rxbuff_size b'0' } in
      if ltb_ℤ (pos 5) (seen.clock -ℤ n.timerconnect)
      then (if seen.online
          then (if seen.opens
              then (if leb_ℤ seen.ping_sent (pos 0)
                  then (record filled { status = 0 }, opened ∷ sends_ping ∷ closed ∷ [])
                  else (record filled { status = 1 }, opened ∷ sends_ping ∷ []))
              else (filled, []))
          else (tried, []))
      else (n, [])

  -- Case 1, its three parts. The first has no `break`.
  unfoldable pub check_line : Net → Net × List Deed
  check_line n = if seen.online then (n, []) else close_net n

  unfoldable pub receive : Net → Net × List Deed
  receive n = elim seen.received [
    | none ↦ (n, [])
    | some bytes ↦
        let rx = over_start bytes n.rxbuff in
        let served = record n { timerconnect = seen.clock; rxbuff = rx } in
        if ltb_ℤ seen.reply_sent (pos 0)
        then (record served { status = 0 }, runs (c_string rx) ∷ sends_reply ∷ closed ∷ [])
        else (served, runs (c_string rx) ∷ sends_reply ∷ [])
  ]

  unfoldable pub keep_alive : Net → Net × List Deed
  keep_alive n =
      let pinged = record n { timerconnect = seen.clock } in
      if ltb_ℤ (pos 15) (seen.clock -ℤ n.timerconnect)
      then (if leb_ℤ seen.ping_sent (pos 0)
          then (record pinged { status = 0 }, sends_ping ∷ closed ∷ [])
          else (pinged, sends_ping ∷ []))
      else (n, [])

  unfoldable pub gest_ri_mms_net : Net → Net × List Deed
  gest_ri_mms_net n =
      if n.status == 0
      then connect n
      else if n.status == 1
      then check_line n then_net receive then_net keep_alive
      else close_net n
