-- ===== src/Radio/Receiver/Drained.antt =====
-- The loop of `Parser` acts on the bytes of the serial buffer, in their order.
use ri_mms_linux.Prelude.{
  ℕ, zero, suc, ◌+◌, ◌-◌, ◌≤◌, ◌<◌, ◌≡◌, refl, ap, sym, ◌∙◌, arith, List, [], ◌∷◌, ◌++◌,
  append_assoc, append-nil, take, Option, none, some,
}
use ri_mms_linux.Ring.{Ring, put, get}
use ri_mms_linux.Ring.Queue.{
  IsRing, put-IsRing, held, span, held-put, put_full, held-get, get_empty,
}
use ri_mms_linux.Log.Stamp.{Calendar}
use ri_mms_linux.Radio.State.{Radio, Moment}
use ri_mms_linux.Radio.Payload.{Stack}
use ri_mms_linux.Radio.Receiver.{maxbuffer, load_data_rf, on_state, on_byte, drain}
use ri_mms_linux.Radio.Receiver.Switch.{frame_complete-Kept}
use native.Mathlib.Decide.{dec_lt}

pub load_data_rf-IsRing :
    (bytes : List ℕ) (q : Ring) → IsRing maxbuffer q → IsRing maxbuffer (load_data_rf bytes q)
unfolding load_data_rf
load_data_rf-IsRing [] q v = v
load_data_rf-IsRing (x ∷ bytes) q v =
    load_data_rf-IsRing bytes (put maxbuffer x q) (put-IsRing maxbuffer x q v)

take_nil : (n : ℕ) → take {A = ℕ} n [] ≡ []
take_nil zero = refl
take_nil (suc n) = refl

count-put : (q : Ring) (x : ℕ) → q.count < maxbuffer → (put maxbuffer x q).count ≡ q.count + 1
unfolding put
count-put q x room = ground arith

-- The bytes that the port delivers stand behind those held, as many as there is room for.
pub held-load_data_rf :
    (bytes : List ℕ) (q : Ring)
    → IsRing maxbuffer q
    → held maxbuffer (load_data_rf bytes q) ≡ held maxbuffer q ++ take (maxbuffer - q.count) bytes
unfolding load_data_rf
held-load_data_rf [] q v = sym (
    ap (λ t. held maxbuffer q ++ t) (take_nil (maxbuffer - q.count))
    ∙ append-nil (held maxbuffer q))
held-load_data_rf (x ∷ bytes) q v = elim (dec_lt q.count maxbuffer) [
  | yes room ↦
      held-load_data_rf bytes (put maxbuffer x q) (put-IsRing maxbuffer x q v)
      ∙ ap (λ t. t ++ take (maxbuffer - (put maxbuffer x q).count) bytes)
          (held-put maxbuffer x q v room)
      ∙ append_assoc (held maxbuffer q) (x ∷ []) _
      ∙ ap (λ n. held maxbuffer q ++ take n (x ∷ bytes)) (one_less room)
  | no full ↦
      ap (λ p. held maxbuffer (load_data_rf bytes p)) (put_full maxbuffer x q (omega arith))
      ∙ held-load_data_rf bytes q v
      ∙ ap (λ n. held maxbuffer q ++ take n bytes) (none_left (omega arith))
      ∙ ap (λ n. held maxbuffer q ++ take n (x ∷ bytes)) (sym (none_left (omega arith)))
]
  where
    one_less :
        q.count < maxbuffer → suc (maxbuffer - (put maxbuffer x q).count) ≡ maxbuffer - q.count
    one_less room = omega (arith, count-put q x room)

    none_left : maxbuffer ≤ q.count → maxbuffer - q.count ≡ 0
    none_left full = omega arith

-- The serial buffer without its oldest byte.
abbrev pub after_read : Ring → Ring
after_read q = elim (get maxbuffer q) [ none ↦ q | some (x, t) ↦ t ]

module _ (m : Moment) (cal : Calendar) (stack : Stack) where
  pub serial-on_byte : (x : ℕ) (r : Radio) → (on_byte m cal stack x r).serial ≡ r.serial
  unfolding on_byte on_state
  serial-on_byte x r = ground (arith, frame_complete-Kept m cal stack r)

  -- One byte less after each read.
  pub count-get : (r t : Ring) (x : ℕ) → get maxbuffer r ≡ some (x, t) → t.count + 1 ≡ r.count
  unfolding get
  count-get r t x e = ground arith

  -- A round for each of the bytes, with the byte taken out of the serial buffer.
  unfoldable pub acted_on : List ℕ → Radio → Radio
  acted_on [] r = r
  acted_on (x ∷ bytes) r =
      acted_on bytes (on_byte m cal stack x (record r { serial = after_read r.serial }))

  acted_on_empty : (r : Radio) → r.serial.count ≡ 0 → acted_on (held maxbuffer r.serial) r ≡ r
  unfolding acted_on
  acted_on_empty r e = ap (λ n. acted_on (span r.serial.cells maxbuffer r.serial.out n) r) e

  one_round :
      (x : ℕ) (t : Ring) (r : Radio)
      → get maxbuffer r.serial ≡ some (x, t)
      → acted_on (held maxbuffer t) (on_byte m cal stack x (record r { serial = t }))
        ≡ acted_on (x ∷ held maxbuffer t) r
  unfolding acted_on
  one_round x t r got = ap by_read (sym got)
    where
      by_read : Option (ℕ × Ring) → Radio
      by_read o = acted_on (held maxbuffer t) (
          on_byte m cal stack x
            (record r { serial = elim o [ none ↦ r.serial | some (y, u) ↦ u ] }))

  pub drain-acted_on :
      (fuel : ℕ) (r : Radio)
      → r.serial.count ≤ fuel
      → drain m cal stack fuel r ≡ acted_on (held maxbuffer r.serial) r
  unfolding drain acted_on
  drain-acted_on zero r h = sym (acted_on_empty r (omega arith))
  drain-acted_on (suc fuel) r h = elim (dec_lt r.serial.count 1) [
    | yes e ↦
        rw (get_empty maxbuffer r.serial (omega arith), drain)
          (sym (acted_on_empty r (omega arith)))
    | no ne ↦
        let (x, t, got, whole) = held-get maxbuffer r.serial (λ e. absurd (omega arith)) in
        let read = serial-on_byte x (record r { serial = t }) in
        let next = on_byte m cal stack x (record r { serial = t }) in
        rw (got, drain)
          (drain-acted_on fuel next
              (omega (arith, ap (λ (q : Ring). q.count) read, count-get r.serial t x got))
            ∙ ap (λ q. acted_on (held maxbuffer q) next) read
            ∙ one_round x t r got
            ∙ ap (λ bytes. acted_on bytes r) (sym whole))
  ]
