-- ===== src/Ring/Queue.antt =====
-- A circular buffer behaves as the bounded queue of the bytes that it holds.
use ri_mms_linux.Prelude.{ℕ, zero, suc, ◌+◌, ◌-◌, ◌≤◌, ◌<◌, ◌≡◌, ◌≢◌, refl, ap, ◌⊎◌, inl, inr}
use ri_mms_linux.Prelude.{List, [], ◌∷◌, ◌++◌, none, some, Bool-cases, ltb}
use ri_mms_linux.Prelude.{arith, length, get_or, set, length-set, get_or-set_self, get_or-set_ne}
use mathlib.Core.Path.{ap₂}
use ri_mms_linux.Ring.{Ring, next_index, put, get}

-- The array has `cap` cells, the indices lie in it, and the write index stands `count` cells past
-- the read index.
pub record IsRing (cap : ℕ) (r : Ring) : Type 0 where
  pub sized : length r.cells ≡ cap
  pub inp_in : r.inp < cap
  pub out_in : r.out < cap
  pub count_in : r.count ≤ cap
  pub placed : (r.out + r.count ≡ r.inp) ⊎ (r.out + r.count ≡ r.inp + cap)

module _ (cells : List ℕ) (cap : ℕ) where
  -- The `n` bytes from index `h` on, going round at `cap`.
  abbrev pub span : ℕ → ℕ → List ℕ
  span h zero = []
  span h (suc n) = get_or cells h 0 ∷ span (next_index cap h) n

  pub length-span : (h n : ℕ) → length (span h n) ≡ n
  length-span h zero = refl
  length-span h (suc n) = ap suc (length-span (next_index cap h) n)

  span_of_ne_zero :
      (h n : ℕ) → n ≢ 0 → span h n ≡ get_or cells h 0 ∷ span (next_index cap h) (n - 1)
  span_of_ne_zero h zero p = absurd (p refl)
  span_of_ne_zero h (suc n) p = ap (λ k. span h (suc k)) (omega arith)

-- The bytes held, oldest first.
abbrev pub held : ℕ → Ring → List ℕ
held cap r = span r.cells cap r.out r.count

pub length-held : (cap : ℕ) (r : Ring) → length (held cap r) ≡ r.count
length-held cap r = length-span r.cells cap r.out r.count

next_index-lt : (cap h : ℕ) → h < cap → next_index cap h < cap
next_index-lt cap h p = ground arith

-- A write just past a span extends it by the byte written.
span-set :
    (cells : List ℕ) (cap x n h i : ℕ)
    → length cells ≡ cap
    → h < cap
    → i < cap
    → n < cap
    → (h + n ≡ i) ⊎ (h + n ≡ i + cap)
    → span (set cells i x) cap h (suc n) ≡ span cells cap h n ++ (x ∷ [])
span-set cells cap x zero h i s hh hi hn e =
    let same : i ≡ h = omega arith in
    rw same (ap (λ v. v ∷ []) (get_or-set_self cells h x 0 (omega arith)))
span-set cells cap x (suc n) h i s hh hi hn e =
    ap₂ ◌∷◌ (get_or-set_ne cells i h x 0 (λ p. omega arith)) (
      span-set cells cap x n (next_index cap h) i s (next_index-lt cap h hh) hi (omega arith) moved)
  where
    moved : (next_index cap h + n ≡ i) ⊎ (next_index cap h + n ≡ i + cap)
    moved = ground arith

pub put-IsRing : (cap x : ℕ) (r : Ring) → IsRing cap r → IsRing cap (put cap x r)
unfolding put
put-IsRing cap x r v = ground (arith, length-set r.cells r.inp x)

-- A byte put into a buffer that is not full is queued behind the others.
pub held-put :
    (cap x : ℕ) (r : Ring)
    → IsRing cap r
    → r.count < cap
    → held cap (put cap x r) ≡ held cap r ++ (x ∷ [])
unfolding put
held-put cap x r v room = elim (Bool-cases (ltb r.count cap)) [
  | inl yes_room ↦
      rw (yes_room, add-one)
        (span-set r.cells cap x r.count r.out r.inp v.sized v.out_in v.inp_in room v.placed)
  | inr full ↦ absurd (ground arith)
]
  where
    add-one : r.count + 1 ≡ suc r.count
    add-one = omega arith

-- A full buffer is left as it is.
pub put_full : (cap x : ℕ) (r : Ring) → cap ≤ r.count → put cap x r ≡ r
unfolding put
put_full cap x r h = ground arith

pub get-IsRing : (cap x : ℕ) (r t : Ring) → IsRing cap r → get cap r ≡ some (x, t) → IsRing cap t
unfolding get
get-IsRing cap x r t v e = ground arith

-- A read takes the oldest byte.
pub held-get :
    (cap : ℕ) (r : Ring)
    → r.count ≢ 0
    → (x : ℕ) × (t : Ring) × (get cap r ≡ some (x, t)) × (held cap r ≡ x ∷ held cap t)
unfolding get
held-get cap r ne = (
  get_or r.cells r.out 0,
  record r { out = next_index cap r.out; count = r.count - 1 },
  ground arith,
  span_of_ne_zero r.cells cap r.out r.count ne,
)

-- `get` fails on the empty buffer only.
pub get_empty : (cap : ℕ) (r : Ring) → r.count ≡ 0 → get cap r ≡ none
unfolding get
get_empty cap r e = ground arith
