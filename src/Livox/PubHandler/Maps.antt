-- ===== src/Livox/PubHandler/Maps.antt =====
-- `std::map` with numbers as keys, as a list in the order of the keys.
use sentry25navi.Prelude.{
  ℕ, suc, ◌+◌, ◌≤◌, ◌<◌, ◌≡◌, refl, Option, none, some, List, [], ◌∷◌, ◌==◌, ltb, if◌then◌else◌,
  length, arith, ◌≢◌, Bool-cases, inl, inr, ap,
}

module _ {V : Type 0} where
  abbrev pub find : ℕ → List (ℕ × V) → Option V
  find k [] = none
  find k ((j, v) ∷ rest) = if j == k then some v else find k rest

  -- The value at a key, new or not.
  abbrev pub insert : ℕ → V → List (ℕ × V) → List (ℕ × V)
  insert k v [] = (k, v) ∷ []
  insert k v ((j, w) ∷ rest) =
      if j == k
      then (k, v) ∷ rest
      else if ltb k j
      then (k, v) ∷ (j, w) ∷ rest
      else (j, w) ∷ insert k v rest

  pub find-insert :
      (k j : ℕ) (v : V) (m : List (ℕ × V))
      → find j (insert k v m) ≡ (if k == j then some v else find j m)
  find-insert k j v [] = refl
  find-insert k j v ((i, w) ∷ rest) = ground (arith, find-insert k j v rest)

  -- All keys lie above `k`.
  abbrev pub IsAbove : ℕ → List (ℕ × V) → Type 0
  IsAbove k [] = Unit {0}
  IsAbove k ((j, v) ∷ rest) = (k < j) × IsAbove k rest

  abbrev pub IsMap : List (ℕ × V) → Type 0
  IsMap [] = Unit {0}
  IsMap ((k, v) ∷ rest) = IsAbove k rest × IsMap rest

  IsAbove-weaken : (j k : ℕ) (m : List (ℕ × V)) → j < k → IsAbove k m → IsAbove j m
  IsAbove-weaken j k [] lt h = tt
  IsAbove-weaken j k ((i, v) ∷ rest) lt h = (omega arith, IsAbove-weaken j k rest lt h.1)

  insert-IsAbove :
      (j k : ℕ) (v : V) (m : List (ℕ × V)) → j < k → IsAbove j m → IsAbove j (insert k v m)
  insert-IsAbove j k v [] lt h = (lt, tt)
  insert-IsAbove j k v ((i, w) ∷ rest) lt h = ground (arith, insert-IsAbove j k v rest lt h.1)

  pub insert-IsMap : (k : ℕ) (v : V) (m : List (ℕ × V)) → IsMap m → IsMap (insert k v m)
  insert-IsMap k v [] h = (tt, tt)
  insert-IsMap k v ((j, w) ∷ rest) h =
      ground (arith, insert-IsMap k v rest h.1, insert-IsAbove j k v rest, IsAbove-weaken k j rest)

  -- A key below all others is not there.
  pub find-above : (k : ℕ) (m : List (ℕ × V)) → IsAbove k m → find k m ≡ none
  find-above k [] h = refl
  find-above k ((j, v) ∷ rest) h = ground (arith, find-above k rest h.1)

  pub length-insert : (k : ℕ) (v : V) (m : List (ℕ × V)) → length (insert k v m) ≤ length m + 1
  length-insert k v [] = omega arith
  length-insert k v ((j, w) ∷ rest) = ground (arith, length-insert k v rest)

  pub length-insert-known :
      (k : ℕ) (v : V) (m : List (ℕ × V))
      → IsMap m
      → find k m ≢ none
      → length (insert k v m) ≡ length m
  length-insert-known k v [] d known = absurd (known refl)
  length-insert-known k v ((j, w) ∷ rest) d known = elim (Bool-cases (j == k)) [
    | inl same ↦ rw same refl
    | inr other ↦ elim (Bool-cases (ltb k j)) [
      | inl before ↦
          absurd (known (rw other (find-above k rest (IsAbove-weaken k j rest (ground arith) d.0))))
      | inr behind ↦
          rw (other, behind) (ap suc (length-insert-known k v rest d.1 (λ e. known (rw other e))))
    ]
  ]
