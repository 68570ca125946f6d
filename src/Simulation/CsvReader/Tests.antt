-- ===== src/Simulation/CsvReader/Tests.antt =====
-- Tests and a witness of the reader of tables. A value is a number of one digit.
use sentry25navi.Prelude.{
  ℕ, ◌+◌, ◌-◌, ◌≡◌, refl, ◌&&◌, Option, none, some, List, [], ◌∷◌, ◌++◌, leb, if◌then◌else◌,
}
use sentry25navi.Simulation.CsvReader.{read_csv_file}
use sentry25navi.Simulation.CsvReader.Printing.{joined, lines_of, rows_of, read_csv_file_lem}

abbrev digit : List ℕ → Option ℕ
digit [] = none
digit (c ∷ rest) = if leb b'0' c && leb c b'9' then some (c - b'0') else none

abbrev print : ℕ → List ℕ
print x = (b'0' + x) ∷ []

-- A line with a value that is no number is left out, and so is one that ends in a comma.
bad_lines :
    read_csv_file digit
      (some (b't' ∷ 10 ∷ b'1' ∷ b',' ∷ b'2' ∷ 10 ∷ b'x' ∷ 10 ∷ b'3' ∷ b',' ∷ 10 ∷ b'4' ∷ []))
    ≡ some ((1 ∷ 2 ∷ []) ∷ (4 ∷ []) ∷ [])
unfolding read_csv_file
bad_lines = refl

abbrev table : List (ℕ × List ℕ)
table = (1, 2 ∷ 3 ∷ []) ∷ (4, []) ∷ []

read_csv_file_lem_example :
    (read_csv_file digit (some (joined 10 (b't' ∷ []) (lines_of digit print table)))
      ≡ some (rows_of digit print table))
    × (read_csv_file digit (some (joined 10 (b't' ∷ []) (lines_of digit print table ++ [] ∷ [])))
        ≡ some (rows_of digit print table))
read_csv_file_lem_example =
    read_csv_file_lem digit print (b't' ∷ []) table (refl, tt)
      (
        (refl, (refl, tt), (refl, (refl, tt), (refl, (refl, tt), tt))),
        (refl, (refl, (refl, (refl, (refl, tt))))),
        ((refl, (refl, tt), tt), (refl, tt), tt),
      )
      refl
