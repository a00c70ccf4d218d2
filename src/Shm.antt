-- ===== src/Shm.antt =====
-- sw/sm.c: the two shared memory segments through which the web pages send commands and get
-- replies. `GestSMComunication` gives the text that it hands to `ParserCommand`, `WriteSM` the
-- segment after it. Whether the calls of the operating system succeed is an argument.
pub mod Rounds
pub mod Delivery
use ri_mms_linux.Prelude.{
  ℕ, zero, suc, ◌+◌, ◌-◌, Bool, false, ◌&&◌, ◌||◌, List, ◌++◌, Option, none, some, length, get_or,
  set, take, replicate, ltb, ◌==◌, if◌then◌else◌,
}
use ri_mms_linux.Prelude.Int.{ℤ, pos, negsuc}

abbrev pub shmsz : ℕ
shmsz = 2048

-- `shmrx`, `bufferSM_rx` and `bufferSMcount_rx`.
pub record Segment : Type 0 where
  pub shmrx : List ℕ
  pub buffer : List ℕ
  pub count : ℕ

-- How the function ends: with 0, with a command to run and a reply to write, or with -1.
pub data Served : Type 0 where
  waiting : Segment → Served
  command : List ℕ → Segment → Served
  given_up : Segment → Served

-- `'\n'` and `'\r'`
abbrev pub is_end : ℕ → Bool
is_end c = c == 10 || c == 13

-- The loop, with fuel. `beyond` is the byte behind the segment, which the loop reads when the count
-- is 2048, before it looks at the count.
unfoldable pub read_segment : ℕ → ℕ → Segment → Served
read_segment beyond zero t = waiting t
read_segment beyond (suc fuel) t =
    let c = get_or t.shmrx t.count beyond in
    let ended = set t.buffer t.count 0 in
    let cleared = set t.shmrx t.count 0 in
    let rest =
      read_segment beyond fuel
        (record { shmrx = cleared; buffer = set t.buffer t.count c; count = t.count + 1 }) in
    if c == 0
    then waiting t
    else if ltb t.count shmsz
    then (if is_end c
        then command (take t.count ended) (record { shmrx = cleared; buffer = ended; count = 0 })
        else rest)
    else given_up (record t { count = 0 })

-- No call has more than 2049 rounds.
unfoldable pub gest_sm_comunication : ℕ → Segment → Served
gest_sm_comunication beyond t = read_segment beyond (shmsz + 1) t

-- `WriteSM` of a text: `none` is a write outside the segment.
unfoldable pub write_sm : List ℕ → Option (List ℕ)
write_sm text =
    if ltb (length text) shmsz then some (text ++ replicate (shmsz - length text) 0) else none

-- `OpenShadowMemory`, with whether both segments can be made and attached: the result, and the
-- segment of the commands. `bufferSM_rx` is left as it is.
unfoldable pub open_shadow_memory : Bool → Segment → ℤ × Segment
open_shadow_memory opens t =
    if opens then (pos 0, record t { shmrx = replicate shmsz 0; count = 0 }) else (negsuc 0, t)

-- `CloseShadowMemory`: both segments are tried, whatever happens to the first.
unfoldable pub close_shadow_memory : Bool → Bool → Bool → Bool → ℤ
close_shadow_memory detaches_tx removes_tx detaches_rx removes_rx =
    let rettx : Bool = if detaches_tx then removes_tx else false in
    let retrx : Bool = if detaches_rx then removes_rx else false in
    if rettx && retrx then pos 0 else negsuc 0
