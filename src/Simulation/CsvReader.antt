-- ===== src/Simulation/CsvReader.antt =====
-- The reader of the scan tables, src/livox_laser_simulation/include/livox_laser_simulation/csv_reader.hpp. A
-- text is a list of codes. `std::stod` is a parameter, `none` if it throws.
mod Printing
mod Tests
use sentry25navi.Prelude.{
  ℕ, Bool, true, false, Option, none, some, List, [], ◌∷◌, ◌++◌, ◌==◌, if◌then◌else◌,
}

abbrev pub newline : ℕ
newline = 10

abbrev pub comma : ℕ
comma = b','

-- The texts that `std::getline` gives until the end of the stream is met: the last one is what follows the
-- last separator, and may be empty.
unfoldable pub getlines : ℕ → List ℕ → List ℕ → List (List ℕ)
getlines sep line [] = line ∷ []
getlines sep line (c ∷ rest) = elim (c == sep) [
  | true ↦ line ∷ getlines sep [] rest
  | false ↦ getlines sep (line ++ c ∷ []) rest
]

module _ {F : Type 0} (stod : List ℕ → Option F) where
  -- The numbers of a line, or none if one of its values is no number.
  unfoldable pub values : List (List ℕ) → Option (List F)
  values [] = some []
  values (v ∷ rest) = elim (stod v) [
    | none ↦ none
    | some x ↦ elim (values rest) [ none ↦ none | some xs ↦ some (x ∷ xs) ]
  ]

  -- A line that does not convert is left out.
  unfoldable pub rows : List (List ℕ) → List (List F)
  unfolding getlines values
  rows [] = []
  rows (line ∷ lines) = elim (values (getlines comma [] line)) [
    | none ↦ rows lines
    | some row ↦ row ∷ rows lines
  ]

  -- The first line is the header. A file that does not open gives `none`.
  unfoldable pub read_csv_file : Option (List ℕ) → Option (List (List F))
  unfolding rows
  read_csv_file none = none
  read_csv_file (some text) = elim (getlines newline [] text) [
    | [] ↦ some []
    | header ∷ lines ↦ some (rows lines)
  ]
