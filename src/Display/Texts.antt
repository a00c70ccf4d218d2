-- ===== src/Display/Texts.antt =====
-- The display's buffer as a queue of texts.
use ri_mms_linux.Prelude.{
  ℕ, zero, suc, ◌+◌, ◌≤◌, ◌<◌, ◌≡◌, ◌≢◌, refl, ap, sym, ◌∙◌, arith, true, false, List, [], ◌∷◌,
  ◌++◌, some, length, length-append, append_assoc, append-nil, get_or, drop, ==_of_ne, ltb,
}
use mathlib.Core.Path.{subst}
use ri_mms_linux.Ring.{Ring, put, get}
use ri_mms_linux.Ring.Queue.{IsRing, held, held-put, put-IsRing, held-get, get-IsRing, length-held}
use ri_mms_linux.Display.{
  maxdisplaybuffer, write_chars, buffered, write_display_buf, read_chars, read_display_buf,
}

-- A C string has no zero inside.
abbrev pub IsText : List ℕ → Type 0
IsText [] = Unit
IsText (c ∷ cs) = (c ≢ 0) × IsText cs

put-count :
    (c : ℕ) (r : Ring) → r.count < maxdisplaybuffer → (put maxdisplaybuffer c r).count ≡ r.count + 1
unfolding put
put-count c r room = ground arith

-- What a write that fits leaves.
pub record Queued (added : List ℕ) (r : Ring) (out : Ring × ℕ) : Type 0 where
  pub ring : IsRing maxdisplaybuffer out.0
  pub content : held maxdisplaybuffer out.0 ≡ held maxdisplaybuffer r ++ added
  pub code : out.1 ≡ 0

write_chars-Queued :
    (cs : List ℕ) (i : ℕ) (r : Ring)
    → IsRing maxdisplaybuffer r
    → r.count + length cs ≤ maxdisplaybuffer
    → Queued cs r (write_chars cs i r)
unfolding write_chars
write_chars-Queued [] i r v fits = record { ring = v; content = sym (append-nil _); code = refl }
write_chars-Queued (c ∷ cs) i r v fits = extend (
    write_chars-Queued cs (i + 1) (put maxdisplaybuffer c r) (put-IsRing maxdisplaybuffer c r v)
      (omega (arith, put-count c r (omega arith))))
  where
    room : r.count < maxdisplaybuffer
    room = omega arith

    has_room : ltb r.count maxdisplaybuffer ≡ true
    has_room = ground arith

    extend :
        Queued cs (put maxdisplaybuffer c r) (write_chars cs (i + 1) (put maxdisplaybuffer c r))
        → Queued (c ∷ cs) r (write_chars (c ∷ cs) i r)
    extend rest = rw has_room (record {
      ring = rest.ring;
      content =
          rest.content
          ∙ ap (λ t. t ++ cs) (held-put maxdisplaybuffer c r v room)
          ∙ append_assoc (held maxdisplaybuffer r) (c ∷ []) cs;
      code = rest.code;
    })

-- A text of at most 63 characters that fits the buffer with its zero is queued whole behind the
-- others, and the result is 0.
pub write_display_buf-Queued :
    (text : List ℕ) (r : Ring)
    → IsRing maxdisplaybuffer r
    → length text ≤ 63
    → r.count + length text + 1 ≤ maxdisplaybuffer
    → (r' : Ring) × (write_display_buf false text r ≡ buffered 0 r')
      × IsRing maxdisplaybuffer r'
      × (held maxdisplaybuffer r' ≡ held maxdisplaybuffer r ++ (text ++ (0 ∷ [])))
unfolding write_display_buf
write_display_buf-Queued text r v short fits = (
  (write_chars (text ++ (0 ∷ [])) 0 r).0,
  rw (short_test) (ap (λ i. buffered i (write_chars (text ++ (0 ∷ [])) 0 r).0) q.code),
  q.ring,
  q.content,
)
  where
    short_test : ltb 63 (length text) ≡ false
    short_test = ground arith

    q : Queued (text ++ (0 ∷ [])) r (write_chars (text ++ (0 ∷ [])) 0 r)
    q = write_chars-Queued (text ++ (0 ∷ [])) 0 r v (omega (arith, length-append text (0 ∷ [])))

-- What a read takes and leaves.
pub record Taken (text rest : List ℕ) (out : List ℕ × Ring) : Type 0 where
  pub ring : IsRing maxdisplaybuffer out.1
  pub taken : out.0 ≡ text
  pub left : held maxdisplaybuffer out.1 ≡ rest

read_chars_stop :
    (n count : ℕ) (r t : Ring)
    → get maxdisplaybuffer r ≡ some (0, t)
    → read_chars (suc n) count r ≡ ([], t)
unfolding read_chars
read_chars_stop n count r t e = rw (e, read_chars) refl

read_chars_go :
    (n count c : ℕ) (r t : Ring)
    → get maxdisplaybuffer r ≡ some (c, t)
    → c ≢ 0
    → count ≤ 64
    → read_chars (suc n) count r
      ≡ (c ∷ (read_chars n (count + 1) t).0, (read_chars n (count + 1) t).1)
unfolding read_chars
read_chars_go n count c r t e h small =
    rw (e, read_chars) (rw (==_of_ne c 0 h) (rw small_test refl))
  where
    small_test : ltb 64 count ≡ false
    small_test = ground arith

-- The oldest character.
first_char :
    (r : Ring) (c : ℕ) (cs : List ℕ)
    → IsRing maxdisplaybuffer r
    → held maxdisplaybuffer r ≡ c ∷ cs
    → (t : Ring) × (get maxdisplaybuffer r ≡ some (c, t))
      × IsRing maxdisplaybuffer t
      × (held maxdisplaybuffer t ≡ cs)
first_char r c cs v e =
    let (x, t, got, whole) = held-get maxdisplaybuffer r some_left in
    let same : x ∷ held maxdisplaybuffer t ≡ c ∷ cs = sym whole ∙ e in
    (
      t,
      got ∙ ap (λ y. some (y, t)) (ap (λ l. get_or l 0 0) same),
      get-IsRing maxdisplaybuffer x r t v got,
      ap (drop 1) same,
    )
  where
    some_left : r.count ≢ 0
    some_left z = absurd (omega (arith, length-held maxdisplaybuffer r, ap length e))

read_chars-Taken :
    (text rest : List ℕ) (n count : ℕ) (r : Ring)
    → IsRing maxdisplaybuffer r
    → held maxdisplaybuffer r ≡ text ++ (0 ∷ rest)
    → IsText text
    → count + length text ≤ 65
    → length text < n
    → Taken text rest (read_chars n count r)
read_chars-Taken text rest zero count r v e plain small enough = absurd (omega arith)
read_chars-Taken [] rest (suc n) count r v e plain small enough =
    let (t, got, ring, left) = first_char r 0 rest v e in
    subst (Taken [] rest) (sym (read_chars_stop n count r t got))
      record { ring = ring; taken = refl; left = left }
read_chars-Taken (c ∷ cs) rest (suc n) count r v e plain small enough =
    let (t, got, ring, left) = first_char r c (cs ++ (0 ∷ rest)) v e in
    let tail =
      read_chars-Taken cs rest n (count + 1) t ring left plain.1 (omega arith) (omega arith) in
    subst (Taken (c ∷ cs) rest) (sym (read_chars_go n count c r t got plain.0 (omega arith)))
      record { ring = tail.ring; taken = ap (λ l. c ∷ l) tail.taken; left = tail.left }

-- When a text of at most 65 characters and its zero are the oldest in the buffer,
-- `ReadDisplayBuf` gives that text and leaves what is behind it.
pub read_display_buf-Taken :
    (text rest : List ℕ) (r : Ring)
    → IsRing maxdisplaybuffer r
    → held maxdisplaybuffer r ≡ text ++ (0 ∷ rest)
    → IsText text
    → length text ≤ 65
    → Taken text rest (read_display_buf r)
unfolding read_display_buf
read_display_buf-Taken text rest r v e plain small =
    read_chars-Taken text rest 66 0 r v e plain (omega arith) (omega arith)
