-- ===== src/Simulation/CsvReader/Printing.antt =====
-- Tables that are written and read again, csv_reader.hpp.
use mathlib.Core.List.{append-nil, append_assoc}
use sentry25navi.Prelude.{
  ℕ, ◌≡◌, refl, sym, ap, ◌∙◌, true, false, Option, none, some, List, [], ◌∷◌, ◌++◌, map, ◌==◌,
  arith,
}
use sentry25navi.Simulation.CsvReader.{newline, comma, getlines, values, rows, read_csv_file}

-- The texts with a separator between each two.
abbrev pub joined : ℕ → List ℕ → List (List ℕ) → List ℕ
joined sep line [] = line
joined sep line (next ∷ rest) = line ++ sep ∷ joined sep next rest

abbrev pub Lacks : ℕ → List ℕ → Type 0
Lacks sep [] = Unit {0}
Lacks sep (c ∷ rest) = (c == sep ≡ false) × Lacks sep rest

abbrev pub AllLack : ℕ → List (List ℕ) → Type 0
AllLack sep [] = Unit {0}
AllLack sep (line ∷ rest) = Lacks sep line × AllLack sep rest

getlines-append :
    (sep : ℕ) (line text rest : List ℕ)
    → Lacks sep text
    → getlines sep line (text ++ rest) ≡ getlines sep (line ++ text) rest
unfolding getlines
getlines-append sep line [] rest h = ap (λ k. getlines sep k rest) (sym (append-nil line))
getlines-append sep line (c ∷ text) rest h =
    rw (h.0, getlines)
      (getlines-append sep (line ++ c ∷ []) text rest h.1
        ∙ ap (λ k. getlines sep k rest) (append_assoc line (c ∷ []) text))

same : (c : ℕ) → (c == c) ≡ true
same c = ground arith

-- Joining and reading the lines gives them back, if none holds the separator.
getlines-joined :
    (sep : ℕ) (line : List ℕ) (rest : List (List ℕ))
    → Lacks sep line
    → AllLack sep rest
    → getlines sep [] (joined sep line rest) ≡ line ∷ rest
unfolding getlines
getlines-joined sep line [] h k =
    ap (getlines sep []) (sym (append-nil line)) ∙ getlines-append sep [] line [] h
getlines-joined sep line (next ∷ rest) h k =
    getlines-append sep [] line (sep ∷ joined sep next rest) h
    ∙ rw (same sep, getlines) (ap (◌∷◌ line) (getlines-joined sep next rest k.0 k.1))

AllLack-end : (sep : ℕ) (lines : List (List ℕ)) → AllLack sep lines → AllLack sep (lines ++ [] ∷ [])
AllLack-end sep [] h = (tt, tt)
AllLack-end sep (line ∷ rest) h = (h.0, AllLack-end sep rest h.1)

module _ {F : Type 0} (stod : List ℕ → Option F) (print : F → List ℕ) where
  abbrev pub Converts : List F → Type 0
  Converts [] = Unit {0}
  Converts (x ∷ xs) = (stod (print x) ≡ some x) × Lacks comma (print x) × Converts xs

  -- A row with at least one value.
  abbrev pub line_of : F → List F → List ℕ
  line_of x xs = joined comma (print x) (map print xs)

  -- The rows that are read as they were written.
  abbrev pub AllConvert : List (F × List F) → Type 0
  AllConvert [] = Unit {0}
  AllConvert ((x, xs) ∷ table) = Converts (x ∷ xs) × Lacks newline (line_of x xs) × AllConvert table

  abbrev pub lines_of : List (F × List F) → List (List ℕ)
  lines_of [] = []
  lines_of ((x, xs) ∷ table) = line_of x xs ∷ lines_of table

  abbrev pub rows_of : List (F × List F) → List (List F)
  rows_of [] = []
  rows_of ((x, xs) ∷ table) = (x ∷ xs) ∷ rows_of table

  values_of : (xs : List F) → Converts xs → values stod (map print xs) ≡ some xs
  unfolding values
  values_of [] h = refl
  values_of (x ∷ xs) h = rw (h.0, values_of xs h.2, values) refl

  Converts-AllLack : (xs : List F) → Converts xs → AllLack comma (map print xs)
  Converts-AllLack [] h = tt
  Converts-AllLack (x ∷ xs) h = (h.1, Converts-AllLack xs h.2)

  line_of-values :
      (x : F) (xs : List F)
      → Converts (x ∷ xs)
      → values stod (getlines comma [] (line_of x xs)) ≡ some (x ∷ xs)
  line_of-values x xs h =
      ap (values stod)
        (getlines-joined comma (print x) (map print xs) h.1 (Converts-AllLack xs h.2))
      ∙ values_of (x ∷ xs) h

  AllConvert-AllLack :
      (table : List (F × List F)) → AllConvert table → AllLack newline (lines_of table)
  AllConvert-AllLack [] h = tt
  AllConvert-AllLack ((x, xs) ∷ table) h = (h.1, AllConvert-AllLack table h.2)

  rows-append :
      (table : List (F × List F)) (more : List (List ℕ))
      → AllConvert table
      → rows stod (lines_of table ++ more) ≡ rows_of table ++ rows stod more
  unfolding rows
  rows-append [] more h = refl
  rows-append ((x, xs) ∷ table) more h =
      rw (line_of-values x xs h.0, rows) (ap (◌∷◌ (x ∷ xs)) (rows-append table more h.2))

  blank_row : stod [] ≡ none → rows stod ([] ∷ []) ≡ []
  unfolding rows
  blank_row e = rw (e, rows, values) refl

  -- A table that is written line by line behind a header, a row with at least one value to a line, is read
  -- back, whether or not the last line ends: if the conversion reads each value from its text, no text of
  -- a value holds a comma, no line a newline, and the empty text is no number.
  pub read_csv_file_lem :
      (header : List ℕ) (table : List (F × List F))
      → Lacks newline header
      → AllConvert table
      → stod [] ≡ none
      → (read_csv_file stod (some (joined newline header (lines_of table))) ≡ some (rows_of table))
        × (read_csv_file stod (some (joined newline header (lines_of table ++ [] ∷ [])))
            ≡ some (rows_of table))
  unfolding read_csv_file
  read_csv_file_lem header table plain h empty = (
    rw
        (
          getlines-joined newline header (lines_of table) plain (AllConvert-AllLack table h),
          read_csv_file,
        )
        (ap some (
          ap (rows stod) (sym (append-nil (lines_of table)))
          ∙ rows-append table [] h
          ∙ append-nil (rows_of table))),
    rw
        (
          getlines-joined newline header (lines_of table ++ [] ∷ []) plain
              (AllLack-end newline (lines_of table) (AllConvert-AllLack table h)),
          read_csv_file,
        )
        (ap some (
          rows-append table ([] ∷ []) h
          ∙ ap (λ r. rows_of table ++ r) (blank_row empty)
          ∙ append-nil (rows_of table))),
  )
