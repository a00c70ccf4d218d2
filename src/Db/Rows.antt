-- ===== src/Db/Rows.antt =====
-- What the callback of sw/db.c makes of the rows, and what `LoadParamDb` gives where there are none.
use ri_mms_linux.Prelude.{
  ℕ, zero, suc, ◌+◌, ◌≤◌, ◌<◌, ◌≡◌, refl, ap, sym, ◌∙◌, arith, true, List, [], ◌∷◌, ◌++◌, none,
  some, length, length-append, append_assoc, get_or, get_or-append, set-append, ltb,
}
use mathlib.Core.Path.{subst}
use ri_mms_linux.Config.{Key}
use ri_mms_linux.Db.{store_cells, callback, callbacks, run, load_param_db}
use ri_mms_linux.Db.Tables.{Sqlite, Store, Row, cell_room, select_config}

-- As many columns as a row of `Db` has cells, or fewer, each text shorter than 128 characters.
abbrev pub Fits : ℕ → Row → Type 0
Fits cells [] = Unit
Fits zero (v ∷ row) = ⊥
Fits (suc cells) (none ∷ row) = Fits cells row
Fits (suc cells) (some v ∷ row) = (length v < cell_room) × Fits cells row

abbrev pub AllFit : List Row → Type 0
AllFit [] = Unit
AllFit (row ∷ rows) = Fits 14 row × AllFit rows

-- `Db.datarow` as it is declared.
abbrev pub AllWide : List (List (List ℕ)) → Type 0
AllWide [] = Unit
AllWide (cells ∷ datarow) = (length cells ≡ 14) × AllWide datarow

-- The texts of a row over the cells that are there.
abbrev pub over : Row → List (List ℕ) → List (List ℕ)
over [] cells = cells
over (v ∷ row) [] = []
over (none ∷ row) (c ∷ cells) = [] ∷ over row cells
over (some v ∷ row) (c ∷ cells) = v ∷ over row cells

store_cells-over :
    (cells : List (List ℕ)) (row : Row)
    → Fits (length cells) row
    → store_cells cells row ≡ some (over row cells)
unfolding store_cells
store_cells-over [] [] h = refl
store_cells-over (c ∷ cells) [] h = refl
store_cells-over [] (v ∷ row) h = absurd h
store_cells-over (c ∷ cells) (none ∷ row) h = rw (store_cells-over cells row h) refl
store_cells-over (c ∷ cells) (some v ∷ row) (p, h) =
    let small : ltb (length v) cell_room ≡ true = ground arith in
    rw small (rw (store_cells-over cells row h) refl)

-- The rows over the first rows that are there.
abbrev pub laid : List Row → List (List (List ℕ)) → List (List (List ℕ))
laid [] datarow = datarow
laid (row ∷ rows) [] = []
laid (row ∷ rows) (cells ∷ datarow) = over row cells ∷ laid rows datarow

module _ {S : Type 0} (t : Store S) where
  -- `Db` with `before` behind it and `datarow` still to fill.
  abbrev filled : List (List (List ℕ)) → List (List (List ℕ)) → Store S
  filled before datarow = record t { numrow = length before; datarow = before ++ datarow }

  callback-laid :
      (before : List (List (List ℕ))) (row : Row) (cells : List (List ℕ))
      (datarow : List (List (List ℕ)))
      → length cells ≡ 14
      → Fits 14 row
      → callback row (filled before (cells ∷ datarow))
        ≡ filled (before ++ (over row cells ∷ [])) datarow
  unfolding callback
  callback-laid before row cells datarow wide fits =
      let here = get_or-append before cells datarow [] in
      let kept : store_cells (get_or (before ++ (cells ∷ datarow)) (length before) []) row
          ≡ some (over row cells) =
        rw here (store_cells-over cells row (subst (λ n. Fits n row) (sym wide) fits)) in
      let longer : length before + 1 ≡ length (before ++ (over row cells ∷ [])) =
        omega (arith, length-append before (over row cells ∷ [])) in
      rw (kept, callback) (rw (set-append before cells datarow (over row cells)) (rw longer refl))

  callbacks-filled :
      (rows : List Row) (before datarow : List (List (List ℕ)))
      → AllFit rows
      → AllWide datarow
      → length rows ≤ length datarow
      → callbacks rows (filled before datarow)
        ≡ record t { numrow = length before + length rows; datarow = before ++ laid rows datarow }
  unfolding callbacks
  callbacks-filled [] before datarow fit wide room =
      let n : length before ≡ length before + 0 = omega arith in rw (← n) refl
  callbacks-filled (row ∷ rows) before [] fit wide room = absurd (omega arith)
  callbacks-filled (row ∷ rows) before (cells ∷ datarow) (f, fit) (w, wide) room =
      let one : List (List (List ℕ)) = over row cells ∷ [] in
      let longer : length (before ++ one) + length rows ≡ length before + suc (length rows) =
        omega (arith, length-append before one) in
      ap (callbacks rows) (callback-laid before row cells datarow w f)
      ∙ callbacks-filled rows (before ++ one) datarow fit wide (omega arith)
      ∙ rw (longer, append_assoc before one (laid rows datarow)) refl

  -- From `Db.numrow=0` on, rows that are no more than the array has and whose texts fit their cells
  -- are stored one after the other from its first row on, NULL as an empty text; the rest of the
  -- array keeps what an earlier statement left there, and nothing is written outside it.
  pub callbacks-laid :
      (rows : List Row)
      → AllFit rows
      → AllWide t.datarow
      → length rows ≤ length t.datarow
      → callbacks rows (record t { numrow = 0 })
        ≡ record t { numrow = length rows; datarow = laid rows t.datarow }
  callbacks-laid rows fit wide room =
      let none_before : 0 + length rows ≡ length rows = omega arith in
      subst
        (λ n.
          callbacks rows (record t { numrow = 0 })
          ≡ record t { numrow = n; datarow = laid rows t.datarow })
        none_before (callbacks-filled rows [] t.datarow fit wide room)

-- The statement of a parameter finds the rows `rows` in the database `disk` and leaves it as it is.
pub record Finds {S : Type 0} (sqlite : Sqlite S) (key : Key) (disk : S) (rows : List Row)
    : Type 0 where
  pub opened : sqlite.opens disk ≡ true
  pub answer : sqlite.exec (select_config key) disk ≡ record { disk = disk; rows = rows; ok = true }

module _ {S : Type 0} (sqlite : Sqlite S) where
  load_param_db-Finds :
      (key : Key) (rows : List Row) (t : Store S)
      → Finds sqlite key t.disk rows
      → AllFit rows
      → AllWide t.datarow
      → length rows ≤ length t.datarow
      → ((load_param_db sqlite key t).0 ≡ some (get_or (get_or (laid rows t.datarow) 0 []) 1 []))
        × ((load_param_db sqlite key t).1.datarow ≡ laid rows t.datarow)
        × ((load_param_db sqlite key t).1.disk ≡ t.disk)
  unfolding load_param_db run
  load_param_db-Finds key rows t finds fit wide room =
      let stored = callbacks-laid t rows fit wide room in
      rw (finds.opened) (rw (finds.answer) (rw stored (refl, ground arith, ground arith)))

  load_param_db_none :
      (key : Key) (t : Store S)
      → Finds sqlite key t.disk []
      → (load_param_db sqlite key t).0 ≡ some (get_or (get_or t.datarow 0 []) 1 [])
  unfolding load_param_db run callbacks
  load_param_db_none key t finds = rw (finds.opened) (rw (finds.answer) refl)

  -- A parameter that the database does not have is no error: after the loading of a parameter with
  -- one row, whose text is `value`, `LoadParamDb` of a parameter with no row returns 0 and that
  -- same `value`.
  load_param_db_missing :
      (key missing : Key) (name value : List ℕ) (t : Store S)
      → Finds sqlite key t.disk ((some name ∷ some value ∷ []) ∷ [])
      → Finds sqlite missing t.disk []
      → length name < 128
      → length value < 128
      → AllWide t.datarow
      → 1 ≤ length t.datarow
      → (load_param_db sqlite missing (load_param_db sqlite key t).1).0 ≡ some value
  load_param_db_missing key missing name value t found none_there short_name short wide room =
      let t1 = (load_param_db sqlite key t).1 in
      let row : Row = some name ∷ some value ∷ [] in
      let l =
        load_param_db-Finds key (row ∷ []) t found ((short_name, (short, tt)), tt) wide room in
      load_param_db_none missing t1
        (subst (λ disk. Finds sqlite missing disk []) (sym (l.2)) none_there)
      ∙ ap (λ datarow. some (get_or (get_or datarow 0 []) 1 [])) (l.1)
      ∙ ap some (first_value t.datarow wide room)
    where
      first_value :
          (datarow : List (List (List ℕ)))
          → AllWide datarow
          → 1 ≤ length datarow
          → get_or (get_or (laid ((some name ∷ some value ∷ []) ∷ []) datarow) 0 []) 1 [] ≡ value
      first_value [] wide room = absurd (omega arith)
      first_value ([] ∷ datarow) (w, wide) room = absurd (omega arith)
      first_value ((c ∷ []) ∷ datarow) (w, wide) room = absurd (omega arith)
      first_value ((c ∷ c' ∷ cells) ∷ datarow) (w, wide) room = refl
