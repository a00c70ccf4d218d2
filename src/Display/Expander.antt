-- ===== src/Display/Expander.antt =====
-- The expander behind the display's bus, sw/display.c: four keys and the light share one byte, which
-- `InitExpander`, `Backlight` and `GetKey` write and read; `lcdinit` as the commands that it sends.
-- Reads and writes that fail are arguments: a read is `none`, a write `false`.
pub mod Keys
pub mod Start
use Prim.Native.Nat.{bit_and, bit_or}
use ri_mms_linux.Prelude.{
  ℕ, ◌+◌, Bool, true, false, List, [], ◌∷◌, Option, none, some, ◌==◌, replicate, if◌then◌else◌,
}
use ri_mms_linux.Prelude.Int.{ℤ, pos, negsuc, ◌-ℤ◌}
use ri_mms_linux.Display.{maxdisplaybuffer}
use ri_mms_linux.Display.Gest.{Display}

-- `Backlight`: the result, and the byte that it writes to the expander.
unfoldable pub backlight : ℕ → Option ℕ → Bool → ℤ × Option ℕ
backlight onoff byte writes = elim byte [
  | none ↦ (negsuc 0, none)
  | some buffer ↦
      let written : ℕ → ℤ × Option ℕ = λ b. if writes then (pos 0, some b) else (negsuc 0, none) in
      if onoff == 0
      then written (bit_and buffer 0xef)
      else if onoff == 1
      then written (bit_or buffer 0x10)
      else (negsuc 0, none)
]

-- KEY1 … KEY4, and the bit of each.
abbrev pub key_mask : ℕ → Option ℕ
key_mask key =
    if key == 1
    then some 1
    else if key == 2
    then some 2
    else if key == 3
    then some 4
    else if key == 4
    then some 8
    else none

-- `GetKey`, with the `Key` that it calls: a key that is pressed reads as 0.
unfoldable pub get_key : ℕ → Option ℕ → ℤ
get_key key byte = elim byte [
  | none ↦ negsuc 0
  | some buffer ↦ elim (key_mask key) [
    | none ↦ negsuc 0
    | some mask ↦ if bit_and buffer mask == 0 then pos 1 else pos 0
  ]
]

-- What `lcdinit` meets: whether the bus can be opened for the display and for the expander, the bytes
-- written and read there, `calloc`, and the time.
pub record Bus : Type 0 where
  pub display_opens : Bool
  pub expander_opens : Bool
  pub init_writes : Bool
  pub byte : Option ℕ
  pub light_writes : Bool
  pub memory : Bool
  pub time : ℤ

-- Function set, oscillator, contrast, power, follower, display on, and `lcdclear`. The results of
-- `lcdsend` are not looked at.
abbrev pub lcd_commands : List ℕ
lcd_commands = 0x38 ∷ 0x39 ∷ 0x14 ∷ 0x72 ∷ 0x54 ∷ 0x6f ∷ 0x0c ∷ 0x01 ∷ []

-- `lcdinit`: the result, the commands sent, and the globals after it.
unfoldable pub lcdinit : Bus → Display → ℤ × List ℕ × Display
lcdinit bus d =
    let (lit, written) = backlight 0 bus.byte bus.light_writes in
    let dark : Display = elim written [ none ↦ d | some byte ↦ record d { backlight = false } ] in
    let started : Display = record dark {
      queue = record { cells = replicate maxdisplaybuffer 0; count = 0; inp = 0; out = 0 };
      displaynewmsg = false;
      timerdisplay = bus.time -ℤ pos 9;
      displaybusy = false;
    } in
    if bus.display_opens
    then (if bus.expander_opens
        then (if bus.init_writes
            then elim lit [
              | negsuc n ↦ (negsuc 0, lcd_commands, dark)
              | pos n ↦
                  if bus.memory
                  then (pos 0, lcd_commands, started)
                  else (negsuc 0, lcd_commands, dark)
            ]
            else (negsuc 0, lcd_commands, d))
        else (negsuc 0, [], d))
    else (negsuc 0, [], d)
