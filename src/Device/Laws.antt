-- ===== src/Device/Laws.antt =====
-- What the searches of the sensor table find, and what `InitDevices` leaves in it.
use ri_mms_linux.Prelude.{
  ℕ, zero, suc, ◌+◌, ◌-◌, ◌*◌, ◌%◌, ◌^◌, ◌≤◌, ◌<◌, ◌≡◌, ◌≢◌, refl, ap, sym, ◌∙◌,
}
use ri_mms_linux.Prelude.{List, [], ◌∷◌, none, some, inl, inr, arith}
use ri_mms_linux.Prelude.{length, get_or, Bool-cases}
use ri_mms_linux.Prelude.Int.{ℤ, pos, negsuc, signed16, pattern32, ◌==ℤ◌, ==ℤ_iff}
use ri_mms_linux.Device.{
  Device, blank, maxdevice, find_devices_from_add, init_device, init_from, init_devices,
}

-- The search started at index `k` stops at the first match.
pub record FirstMatch (k n add i : ℕ) (ds : List Device) : Type 0 where
  pub from : k ≤ i
  pub within : i < k + n
  pub stored : i < k + length ds
  pub matches : signed16 (get_or ds (i - k) blank).add ≡ pos add
  pub first : (j : ℕ) → j < i - k → signed16 (get_or ds j blank).add ≢ pos add

find-miss :
    (k n add : ℕ) (d : Device) (ds : List Device)
    → signed16 d.add ≢ pos add
    → find_devices_from_add k (suc n) add (d ∷ ds) ≡ find_devices_from_add (k + 1) n add ds
unfolding find_devices_from_add
find-miss k n add d ds other = ground arith

find-hit :
    (k n add : ℕ) (d : Device) (ds : List Device)
    → signed16 d.add ≡ pos add
    → find_devices_from_add k (suc n) add (d ∷ ds) ≡ some k
unfolding find_devices_from_add
find-hit k n add d ds same = ground arith

FirstMatch-here :
    (k n add i : ℕ) (d : Device) (ds : List Device)
    → signed16 d.add ≡ pos add
    → i ≡ k
    → FirstMatch k (suc n) add i (d ∷ ds)
FirstMatch-here k n add i d ds same here = record {
  from = omega arith;
  within = omega arith;
  stored = omega arith;
  matches = let z : i - k ≡ 0 = omega arith in rw z same;
  first = λ j h. absurd (omega arith);
}

FirstMatch-later :
    (k n add i : ℕ) (d : Device) (ds : List Device)
    → signed16 d.add ≢ pos add
    → FirstMatch (k + 1) n add i ds
    → FirstMatch k (suc n) add i (d ∷ ds)
FirstMatch-later k n add i d ds other l = record {
  from = omega (arith, l.from);
  within = omega (arith, l.within);
  stored = omega (arith, l.stored);
  matches = let z : i - k ≡ suc (i - (k + 1)) = omega (arith, l.from) in rw z l.matches;
  first = λ j h. before j h;
}
  where
    before : (j : ℕ) → j < i - k → signed16 (get_or (d ∷ ds) j blank).add ≢ pos add
    before zero h = other
    before (suc j) h = l.first j (omega (arith, l.from))

-- A search that succeeds returns the first index below `DeviceNumber`, counted from `k`, whose
-- address, read as a `short`, is the address looked for.
pub find-FirstMatch :
    (k n add i : ℕ) (ds : List Device)
    → find_devices_from_add k n add ds ≡ some i
    → FirstMatch k n add i ds
find-FirstMatch k n add i [] e = absurd (unfold find_devices_from_add in ground arith)
find-FirstMatch k zero add i (d ∷ ds) e = absurd (unfold find_devices_from_add in ground arith)
find-FirstMatch k (suc n) add i (d ∷ ds) e = elim (Bool-cases (signed16 d.add ==ℤ pos add)) [
  | inl hit ↦
      let same : signed16 d.add ≡ pos add = (==ℤ_iff _ _).0 hit in
      FirstMatch-here k n add i d ds same (ground (arith, find-hit k n add d ds same))
  | inr miss ↦
      let other : signed16 d.add ≢ pos add = λ p. cc (miss, (==ℤ_iff _ _).1 p) in
      FirstMatch-later k n add i d ds other
        (find-FirstMatch (k + 1) n add i ds (sym (find-miss k n add d ds other) ∙ e))
]

-- A sensor whose radio address has its top bit set is never found: the table's address is a signed
-- `short` and the address received is unsigned.
pub find_high_address :
    (k n add : ℕ) (ds : List Device) → 2 ^ 15 ≤ add → find_devices_from_add k n add ds ≡ none
unfolding find_devices_from_add
find_high_address k n add [] h = refl
find_high_address k n add (d ∷ ds) h = ground (arith, find_high_address (k + 1) (n - 1) add ds h)

-- What `InitDevices` makes of a row: at least one unit for each period, a watchdog time above ten
-- times the radio period, and no alarm.
pub record IsReady (now : ℤ) (d : Device) : Type 0 where
  pub samples : 1 ≤ d.sampleperiod
  pub transmits : 1 ≤ d.radioperiod
  pub watched : 10 * d.radioperiod < d.aliveperiod
  pub live : d.flagalalarmlive ≡ 0
  pub temp : d.flagalalarmtemp ≡ 0
  pub humi : d.flagalalarmhumi ≡ 0
  pub batt : d.flagalalarmbatt ≡ 0
  pub contact : d.lastcontact ≡ now
  pub alarm : d.lastalarm ≡ now

init_device-IsReady :
    (uknown : ℕ → List ℕ) (now : ℤ) (i : ℕ) (d : Device)
    → d.radioperiod < 2 ^ 31
    → IsReady now (init_device uknown now i d)
unfolding init_device
init_device-IsReady uknown now i d h = ground arith

abbrev pub SmallPeriods : List Device → Type 0
SmallPeriods [] = Unit
SmallPeriods (d ∷ ds) = (d.radioperiod < 2 ^ 31) × SmallPeriods ds

-- The first `n` of a list.
abbrev pub AllReady : ℤ → ℕ → List Device → Type 0
AllReady now zero ds = Unit
AllReady now (suc n) [] = Unit
AllReady now (suc n) (d ∷ ds) = IsReady now d × AllReady now n ds

-- What a run over `n` rows leaves.
record Initialised (uknown : ℕ → List ℕ) (now : ℤ) (i n : ℕ) (ds : List Device) : Type 0 where
  out : List Device
  runs : init_from uknown now i n ds ≡ some out
  same_length : length out ≡ length ds
  ready : AllReady now n out

init_from-total :
    (uknown : ℕ → List ℕ) (now : ℤ) (i n : ℕ) (ds : List Device)
    → n ≤ length ds
    → SmallPeriods ds
    → Initialised uknown now i n ds
unfolding init_from
init_from-total uknown now i zero [] h s = record {
  out = [];
  runs = refl;
  same_length = refl;
  ready = tt;
}
init_from-total uknown now i zero (d ∷ ds) h s = record {
  out = d ∷ ds;
  runs = refl;
  same_length = refl;
  ready = tt;
}
init_from-total uknown now i (suc n) [] h s = absurd (omega arith)
init_from-total uknown now i (suc n) (d ∷ ds) h s =
    let later : Initialised uknown now (i + 1) n ds =
      init_from-total uknown now (i + 1) n ds (omega arith) s.1 in
    let less : suc n - 1 ≡ n = omega arith in
    record {
      out = init_device uknown now i d ∷ later.out;
      runs = ground (arith, less, later.runs);
      same_length = ap suc later.same_length;
      ready = (init_device-IsReady uknown now i d s.0, later.ready);
    }

-- When the database gives `n` rows, at most the 100 of the table, and every row of the table has a
-- radioperiod under 2 ^ 31, so that the period watched does not wrap round to 0, `InitDevices`
-- comes back with all `n` rows ready for use.
pub init_devices_total :
    (uknown : ℕ → List ℕ) (now : ℤ) (n : ℕ) (ds : List Device)
    → n ≤ length ds
    → length ds ≡ maxdevice
    → SmallPeriods ds
    → (out : List Device) × (init_devices uknown now (pos n) ds ≡ some (n, out))
      × (length out ≡ maxdevice)
      × AllReady now n out
unfolding init_devices
init_devices_total uknown now n ds h l s =
    let r : Initialised uknown now 0 n ds = init_from-total uknown now 0 n ds h s in
    let fits : n % 2 ^ 32 ≡ n = omega arith in
    (r.out, rw (fits, r.runs), r.same_length ∙ l, r.ready)

init_from-past_end :
    (uknown : ℕ → List ℕ) (now : ℤ) (i n : ℕ) (ds : List Device)
    → length ds < n
    → init_from uknown now i n ds ≡ none
unfolding init_from
init_from-past_end uknown now i n [] h = ground arith
init_from-past_end uknown now i n (d ∷ ds) h =
    ground (arith, init_from-past_end uknown now (i + 1) (n - 1) ds)

-- When the database cannot be read, `LoadDeviceDb` returns a negative number, `DeviceNumber` holds
-- it as an unsigned one, and the loop of `InitDevices` runs out of the table.
init_devices_bad_load :
    (uknown : ℕ → List ℕ) (now : ℤ) (e : ℕ) (ds : List Device)
    → e < 2 ^ 31
    → length ds ≡ maxdevice
    → init_devices uknown now (negsuc e) ds ≡ none
unfolding init_devices
init_devices_bad_load uknown now e ds h l =
    let big : length ds < pattern32 (negsuc e) = omega arith in
    rw (init_from-past_end uknown now 0 (pattern32 (negsuc e)) ds big)
