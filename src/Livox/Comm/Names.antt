-- ===== src/Livox/Comm/Names.antt =====
-- `ReplacePeriodByUnderline` of comm/comm.cpp, over the bytes of the text: `find` and `replace` until no
-- period is left.
use sentry25navi.Prelude.{
  ℕ, inl, inr, Option-cases, zero, suc, ◌+◌, ◌≤◌, ◌<◌, ◌≡◌, refl, ap, false, Option, none, some,
  List, [], ◌∷◌, map, ◌==◌, set, length, if◌then◌else◌, arith, Bool-cases, ◌∙◌, sym,
}

-- `str.find(".")`, from index `i` on.
unfoldable pub find_period : ℕ → List ℕ → Option ℕ
find_period i [] = none
find_period i (c ∷ rest) = if c == b'.' then some i else find_period (i + 1) rest

-- The `while` loop, with fuel: `none` means that it ran out.
unfoldable pub replace_loop : ℕ → List ℕ → Option (List ℕ)
unfolding find_period
replace_loop zero str = none
replace_loop (suc fuel) str = elim (find_period 0 str) [
  | none ↦ some str
  | some pos ↦ replace_loop fuel (set str pos b'_')
]

-- One round for each byte and one more.
unfoldable pub replace_period_by_underline : List ℕ → Option (List ℕ)
unfolding replace_loop
replace_period_by_underline str = replace_loop (suc (length str)) str

abbrev pub underline : ℕ → ℕ
underline c = if c == b'.' then b'_' else c

periods : List ℕ → ℕ
periods [] = 0
periods (c ∷ rest) = if c == b'.' then suc (periods rest) else periods rest

periods-le-length : (str : List ℕ) → periods str ≤ length str
unfolding periods
periods-le-length [] = omega arith
periods-le-length (c ∷ rest) = ground (arith, periods-le-length rest)

find_period-none : (i : ℕ) (str : List ℕ) → find_period i str ≡ none → map underline str ≡ str
unfolding find_period
find_period-none i [] h = refl
find_period-none i (c ∷ rest) h = elim (Bool-cases (c == b'.')) [
  | inl dot ↦ absurd (ground (arith, dot))
  | inr other ↦ rw other (ap (◌∷◌ c) (find_period-none (i + 1) rest (ground (arith, other))))
]

record Found (i pos : ℕ) (str : List ℕ) : Type 0 where
  at : ℕ
  shifted : pos ≡ i + at
  fewer : suc (periods (set str at b'_')) ≡ periods str
  same : map underline (set str at b'_') ≡ map underline str

find_period-Found : (i pos : ℕ) (str : List ℕ) → find_period i str ≡ some pos → Found i pos str
unfolding find_period periods
find_period-Found i pos [] h = absurd (ground arith)
find_period-Found i pos (c ∷ rest) h = elim (Bool-cases (c == b'.')) [
  | inl dot ↦ record {
    at = 0;
    shifted = ground (arith, dot);
    fewer = rw dot refl;
    same = rw dot refl;
  }
  | inr other ↦ later other (find_period-Found (i + 1) pos rest (ground (arith, other)))
]
  where
    later : (c == b'.') ≡ false → Found (i + 1) pos rest → Found i pos (c ∷ rest)
    later other f = record {
      at = suc f.at;
      shifted = omega (arith, f.shifted);
      fewer = rw other f.fewer;
      same = ap (◌∷◌ (underline c)) f.same;
    }

replace_loop_lem :
    (fuel : ℕ) (str : List ℕ)
    → periods str < fuel
    → replace_loop fuel str ≡ some (map underline str)
unfolding replace_loop
replace_loop_lem zero str h = absurd (omega arith)
replace_loop_lem (suc fuel) str h = elim (Option-cases (find_period 0 str)) [
  | inl e ↦ rw (e, replace_loop) (ap some (sym (find_period-none 0 str e)))
  | inr (pos, e) ↦
      rw (e, replace_loop)
        (let f = find_period-Found 0 pos str e in
          let here : pos ≡ f.at = omega (arith, f.shifted) in
          rw here
            (replace_loop_lem fuel (set str f.at b'_') (omega (arith, f.fewer)) ∙ ap some f.same))
]

-- The loop ends, and has turned each period of the text into an underline and nothing else.
pub replace_period_by_underline_lem :
    (str : List ℕ) → replace_period_by_underline str ≡ some (map underline str)
unfolding replace_period_by_underline
replace_period_by_underline_lem str =
    replace_loop_lem (suc (length str)) str (omega (arith, periods-le-length str))
