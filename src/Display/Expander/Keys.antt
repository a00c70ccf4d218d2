-- ===== src/Display/Expander/Keys.antt =====
-- The keys and the light do not disturb one another.
use Prim.Native.Nat.{bit_and, bit_or}
use ri_mms_linux.Prelude.{
  ℕ, zero, suc, ◌+◌, ◌≤◌, ◌<◌, ◌≡◌, refl, sym, ◌∙◌, ap, not, if◌then◌else◌, arith, Bool, true,
  false, Option, none, some, ◌==◌, ==_iff,
}
use ri_mms_linux.Prelude.Int.{ℤ, pos, negsuc}
use ri_mms_linux.Display.Expander.{backlight, get_key}

-- Whether a test answers yes for each of so many numbers from the first one up.
passes : (how_many : ℕ) (test : ℕ → Bool) (first : ℕ) → Bool
passes zero test first = true
passes (suc more) test first =
    let others = passes more test (first + 1) in if test first then others else false

passes-each :
    (how_many : ℕ) (test : ℕ → Bool) (first byte : ℕ)
    → passes how_many test first ≡ true
    → first ≤ byte
    → byte < first + how_many
    → test byte ≡ true
unfolding passes
passes-each zero test first byte all_pass above below = absurd (omega (arith, above, below))
passes-each (suc more) test first byte all_pass above below =
    by_place (first == byte) refl (test first) refl all_pass
      (passes-each more test (first + 1) byte)
  where
    by_place :
        (here : Bool)
        → (first == byte) ≡ here
        → (now : Bool) → test first ≡ now
        → (if now then passes more test (first + 1) else false) ≡ true
        → (passes more test (first + 1) ≡ true
            → first + 1 ≤ byte
            → byte < first + 1 + more
            → test byte ≡ true)
        → test byte ≡ true
    by_place here e false e' h later = absurd (ground (arith, h))
    by_place true e true e' h later = ap test (sym ((==_iff first byte).0 e)) ∙ e'
    by_place false e true e' h later = later h (ground (arith, e, above)) (omega (arith, below))

-- The byte that `Backlight` writes.
abbrev lit_byte : Bool → ℕ → ℕ
lit_byte true buffer = bit_or buffer 0x10
lit_byte false buffer = bit_and buffer 0xef

abbrev keeps_mask : Bool → ℕ → ℕ → Bool
keeps_mask on mask buffer = bit_and (lit_byte on buffer) mask == bit_and buffer mask

abbrev lit_as : Bool → ℕ → Bool
lit_as true buffer = not (bit_and (lit_byte true buffer) 0x10 == 0)
lit_as false buffer = bit_and (lit_byte false buffer) 0x10 == 0

lit_table : (on : Bool) → passes 256 (lit_as on) 0 ≡ true
unfolding passes
lit_table true = refl
lit_table false = refl

mask_table :
    (on : Bool)
    → (passes 256 (keeps_mask on 1) 0 ≡ true)
      × (passes 256 (keeps_mask on 2) 0 ≡ true)
      × (passes 256 (keeps_mask on 4) 0 ≡ true)
      × (passes 256 (keeps_mask on 8) 0 ≡ true)
unfolding passes
mask_table true = (refl, refl, refl, refl)
mask_table false = (refl, refl, refl, refl)

module _ (on : Bool) (buffer : ℕ) (small : buffer < 256) where
  key_bit :
      (mask : ℕ)
      → passes 256 (keeps_mask on mask) 0 ≡ true
      → bit_and (lit_byte on buffer) mask ≡ bit_and buffer mask
  key_bit mask table =
      (==_iff _ _).0 (passes-each 256 _ 0 buffer table (omega arith) (omega (arith, small)))

  get_key-lit : (key : ℕ) → get_key key (some (lit_byte on buffer)) ≡ get_key key (some buffer)
  unfolding get_key
  get_key-lit key = by_key (key == 1) (key == 2) (key == 3) (key == 4) (mask_table on)
    where
      says : Option ℕ → ℕ → ℤ
      says o byte = elim o [
        | none ↦ negsuc 0
        | some mask ↦ if bit_and byte mask == 0 then pos 1 else pos 0
      ]

      same :
          (mask : ℕ)
          → passes 256 (keeps_mask on mask) 0 ≡ true
          → says (some mask) (lit_byte on buffer) ≡ says (some mask) buffer
      same mask table = ap (λ b. if b == 0 then pos 1 else pos 0) (key_bit mask table)

      by_key :
          (k1 k2 k3 k4 : Bool)
          → (passes 256 (keeps_mask on 1) 0 ≡ true)
            × (passes 256 (keeps_mask on 2) 0 ≡ true)
            × (passes 256 (keeps_mask on 4) 0 ≡ true)
            × (passes 256 (keeps_mask on 8) 0 ≡ true)
          → let o : Option ℕ =
              if k1
              then some 1
              else if k2
              then some 2
              else if k3
              then some 4
              else if k4
              then some 8
              else none in
            says o (lit_byte on buffer) ≡ says o buffer
      by_key true k2 k3 k4 (t1, t2, t4, t8) = same 1 t1
      by_key false true k3 k4 (t1, t2, t4, t8) = same 2 t2
      by_key false false true k4 (t1, t2, t4, t8) = same 4 t4
      by_key false false false true (t1, t2, t4, t8) = same 8 t8
      by_key false false false false t = refl

  -- When the expander can be read and written, and whatever byte it gives, `Backlight` with 0 or 1
  -- returns 0 and writes a byte of which `GetKey` says the same for every key, and whose bit 4 is set
  -- exactly for 1.
  backlight-get_key :
      (key : ℕ)
      → (byte : ℕ) × (backlight (if on then 1 else 0) (some buffer) true ≡ (pos 0, some byte))
        × (get_key key (some byte) ≡ get_key key (some buffer))
        × ((bit_and byte 0x10 == 0) ≡ not on)
  unfolding backlight
  backlight-get_key key = (
    lit_byte on buffer,
    by_on on,
    get_key-lit key,
    lit on (passes-each 256 _ 0 buffer (lit_table on) (omega arith) (omega (arith, small))),
  )
    where
      by_on :
          (b : Bool)
          → backlight (if b then 1 else 0) (some buffer) true ≡ (pos 0, some (lit_byte b buffer))
      by_on true = refl
      by_on false = refl

      lit : (b : Bool) → lit_as b buffer ≡ true → (bit_and (lit_byte b buffer) 0x10 == 0) ≡ not b
      lit true e = ground (arith, e)
      lit false e = e
