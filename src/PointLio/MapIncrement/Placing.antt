-- ===== src/PointLio/MapIncrement/Placing.antt =====
-- Where the points of a scan go, `map_incremental` of laserMapping.cpp.
use mathlib.Core.List.{append-nil, append_assoc}
use sentry25navi.Prelude.{
  ℕ, suc, ◌+◌, ◌≡◌, ◌≢◌, refl, sym, ap, ◌∙◌, Bool, true, false, Option, some, List, [], ◌∷◌, ◌++◌,
  map, length, get_elem?, if◌then◌else◌, Bool-cases, inl, inr, arith,
}
use sentry25navi.Livox.Lds.{◌>>=◌}
use sentry25navi.Livox.Messages.{PointXyzi}
use sentry25navi.PointLio.MapIncrement.{
  Cells, Added, outside, in_cell, need_add, increment_round, increment_loop, map_incremental,
}
use sentry25navi.PointLio.MapIncrement.Places.{
  Occupied, here, there, Free, none_near, next, Placed, done, alone, apart, fresh, left_out,
}

false-not-true : false ≢ true
false-not-true e = ground arith

module _ {F : Type 0} (c : Cells F) where
  need_add-if :
      (p q : PointXyzi F) (near : List (PointXyzi F)) (b : Bool)
      → in_cell c p q ≡ b
      → need_add c p (q ∷ near) ≡ (if b then false else need_add c p near)
  unfolding need_add
  need_add-if p q near b h = ap (λ x. if x then false else need_add c p near) h

  need_add-Free :
      (p : PointXyzi F) (near : List (PointXyzi F)) → need_add c p near ≡ true → Free c p near
  need_add-Free p [] h = none_near
  need_add-Free p (q ∷ near) h = elim (Bool-cases (in_cell c p q)) [
    | inl taken ↦ absurd (false-not-true (sym (need_add-if p q near true taken) ∙ h))
    | inr empty ↦
        next q near empty (need_add-Free p near (sym (need_add-if p q near false empty) ∙ h))
  ]

  need_add-Occupied :
      (p : PointXyzi F) (near : List (PointXyzi F)) → need_add c p near ≡ false → Occupied c p near
  unfolding need_add
  need_add-Occupied p [] h = absurd (false-not-true (sym h))
  need_add-Occupied p (q ∷ near) h = elim (Bool-cases (in_cell c p q)) [
    | inl taken ↦ here q near taken
    | inr empty ↦
        there q near (need_add-Occupied p near (sym (need_add-if p q near false empty) ∙ h))
  ]

  -- What a round adds to the lists.
  abbrev Places : PointXyzi F → List (PointXyzi F) → Added F → Type 0
  Places p near s =
      (thin : List (PointXyzi F)) × (free : List (PointXyzi F)) × (increment_round c p near s
        ≡ record {
          point_to_add = s.point_to_add ++ thin;
          point_no_need_downsample = s.point_no_need_downsample ++ free;
        })
      × ((rest : List (PointXyzi F × List (PointXyzi F))) (thin' free' : List (PointXyzi F))
          → Placed c rest thin' free'
          → Placed c ((p, near) ∷ rest) (thin ++ thin') (free ++ free'))

  abbrev with_lists : Added F → List (PointXyzi F) → List (PointXyzi F) → Added F
  with_lists s thin free = record {
    point_to_add = s.point_to_add ++ thin;
    point_no_need_downsample = s.point_no_need_downsample ++ free;
  }

  abbrev decided : PointXyzi F → Added F → Bool → Bool → Added F
  decided p s b b' =
      if b
      then record s { point_no_need_downsample = s.point_no_need_downsample ++ p ∷ [] }
      else if b'
      then record s { point_to_add = s.point_to_add ++ p ∷ [] }
      else s

  kept_free :
      (s : Added F) (free : List (PointXyzi F))
      → record s { point_no_need_downsample = s.point_no_need_downsample ++ free }
        ≡ with_lists s [] free
  kept_free s free =
      ap
        (λ a. record {
          point_to_add = a;
          point_no_need_downsample = s.point_no_need_downsample ++ free;
        })
        (sym (append-nil s.point_to_add))

  kept_thin :
      (s : Added F) (thin : List (PointXyzi F))
      → record s { point_to_add = s.point_to_add ++ thin } ≡ with_lists s thin []
  kept_thin s thin =
      ap (λ a. record { point_to_add = s.point_to_add ++ thin; point_no_need_downsample = a })
        (sym (append-nil s.point_no_need_downsample))

  kept_none : (s : Added F) → s ≡ with_lists s [] []
  kept_none s =
      ap (λ a. record { point_to_add = a; point_no_need_downsample = s.point_no_need_downsample })
        (sym (append-nil s.point_to_add))
      ∙ ap (λ a. record { point_to_add = s.point_to_add ++ []; point_no_need_downsample = a })
          (sym (append-nil s.point_no_need_downsample))

  with_lists-with_lists :
      (s : Added F) (thin free thin' free' : List (PointXyzi F))
      → with_lists (with_lists s thin free) thin' free'
        ≡ with_lists s (thin ++ thin') (free ++ free')
  with_lists-with_lists s thin free thin' free' =
      ap
        (λ a. record {
          point_to_add = a;
          point_no_need_downsample = (s.point_no_need_downsample ++ free) ++ free';
        })
        (append_assoc s.point_to_add thin thin')
      ∙ ap
          (λ a. record {
            point_to_add = s.point_to_add ++ (thin ++ thin');
            point_no_need_downsample = a;
          })
          (append_assoc s.point_no_need_downsample free free')

  Places-decided :
      (p q : PointXyzi F) (near : List (PointXyzi F)) (s : Added F) (b b' : Bool)
      → outside c p q ≡ b
      → need_add c p (q ∷ near) ≡ b'
      → increment_round c p (q ∷ near) s ≡ decided p s b b'
      → Places p (q ∷ near) s
  Places-decided p q near s true b' off need e =
      ([], p ∷ [], e ∙ kept_free s (p ∷ []), λ rest thin' free' placed. apart p q near off placed)
  Places-decided p q near s false true off need e = (
    p ∷ [],
    [],
    e ∙ kept_thin s (p ∷ []),
    λ rest thin' free' placed. fresh p q near off (need_add-Free p (q ∷ near) need) placed,
  )
  Places-decided p q near s false false off need e = (
    [],
    [],
    e ∙ kept_none s,
    λ rest thin' free' placed. left_out p q near off (need_add-Occupied p (q ∷ near) need) placed,
  )

  increment_round-Places :
      (p : PointXyzi F) (near : List (PointXyzi F)) (s : Added F) → Places p near s
  unfolding increment_round
  increment_round-Places p [] s =
      ([], p ∷ [], kept_free s (p ∷ []), λ rest thin' free' placed. alone p placed)
  increment_round-Places p (q ∷ near) s =
      Places-decided p q near s (outside c p q) (need_add c p (q ∷ near)) refl refl refl

get_elem?-map {ℓ κ} :
    {A : Type ℓ} {B : Type κ} (f : A → B) (before after : List A) (x : A)
    → get_elem? (map f (before ++ x ∷ after)) (length before) ≡ some (f x)
get_elem?-map f [] after x = refl
get_elem?-map f (y ∷ before) after x = get_elem?-map f before after x

length-snoc {ℓ} : {A : Type ℓ} (xs : List A) (x : A) → length (xs ++ x ∷ []) ≡ length xs + 1
length-snoc [] x = refl
length-snoc (y ∷ xs) x = ap suc (length-snoc xs x) ∙ omega arith

module _ {F : Type 0} (c : Cells F) where
  abbrev Pairs : Type 0
  Pairs = List (PointXyzi F × List (PointXyzi F))

  abbrev Looped : Pairs → Pairs → Added F → Type 0
  Looped before rest s =
      (thin : List (PointXyzi F)) × (free : List (PointXyzi F)) × (increment_loop c (length rest)
          (length before) (map (λ x. x.0) (before ++ rest)) (map (λ x. x.1) (before ++ rest)) s
        ≡ some (with_lists c s thin free))
      × Placed c rest thin free

  abbrev loop_on : ℕ → Pairs → ℕ → Added F → Option (Added F)
  loop_on rounds all i s = increment_loop c rounds i (map (λ x. x.0) all) (map (λ x. x.1) all) s

  loop_step :
      (rest before : Pairs) (x : PointXyzi F × List (PointXyzi F)) (s : Added F)
      → loop_on (suc (length rest)) (before ++ x ∷ rest) (length before) s
        ≡ loop_on
            (length rest)
            ((before ++ x ∷ []) ++ rest)
            (length (before ++ x ∷ []))
            (increment_round c x.0 x.1 s)
  unfolding increment_loop
  loop_step rest before x s =
      let all = before ++ x ∷ rest in
      ap
        (λ o. o >>= λ near.
          (get_elem? (map (λ y. y.0) all) (length before) >>= λ p.
          loop_on (length rest) all (length before + 1) (increment_round c p near s)))
        (get_elem?-map (λ y. y.1) before rest x)
      ∙ ap
          (λ o.
            o >>= λ p. loop_on (length rest) all (length before + 1) (increment_round c p x.1 s))
          (get_elem?-map (λ y. y.0) before rest x)
      ∙ ap (λ i. loop_on (length rest) all i (increment_round c x.0 x.1 s))
          (sym (length-snoc before x))
      ∙ ap (λ l. loop_on (length rest) l (length (before ++ x ∷ [])) (increment_round c x.0 x.1 s))
          (sym (append_assoc before (x ∷ []) rest))

  looped : (rest before : Pairs) (s : Added F) → Looped before rest s
  unfolding increment_loop
  looped [] before s = ([], [], ap some (kept_none c s), done)
  looped (x ∷ rest) before s =
      let r = increment_round-Places c x.0 x.1 s in
      let next = looped rest (before ++ x ∷ []) (increment_round c x.0 x.1 s) in
      (
        r.0 ++ next.0,
        r.1 ++ next.1,
        loop_step rest before x s
            ∙ next.2
            ∙ ap (λ a. some (with_lists c a next.0 next.1)) r.2
            ∙ ap some (with_lists-with_lists c s r.0 r.1 next.0 next.1),
        r.3 rest next.0 next.1 next.3,
      )

  -- For points that each have a list of neighbours, no access is out of range. In the order of the scan, the
  -- points with no neighbour, or with a first neighbour far from their cell, are added as they are; of the
  -- others those with no neighbour in their cell are thinned out, and those with one are left out.
  pub map_incremental_lem :
      (pairs : Pairs)
      → (thin : List (PointXyzi F)) × (free : List (PointXyzi F)) × (map_incremental c
            (length pairs)
            (map (λ x. x.0) pairs)
            (map (λ x. x.1) pairs)
          ≡ some (record { point_to_add = thin; point_no_need_downsample = free }))
        × Placed c pairs thin free
  unfolding map_incremental
  map_incremental_lem pairs =
      looped pairs [] (record { point_to_add = []; point_no_need_downsample = [] })
