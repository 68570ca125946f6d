-- ===== src/PointLio/Preprocess/Spinning.antt =====
-- The handlers of preprocess.cpp for the lidars that turn.
use sentry25navi.Prelude.{
  ℕ, zero, suc, ◌+◌, ◌%◌, ◌≤◌, ◌<◌, ◌≡◌, refl, sym, ap, ◌∙◌, Bool, true, false, not, ◌&&◌, ◌||◌,
  Option, none, some, List, [], ◌∷◌, ◌++◌, ◌==◌, ltb, length, length-set, length-replicate,
  get_elem?, get_elem?-some, Bool-cases, inl, inr, arith,
}
use sentry25navi.Livox.Lds.{◌>>=◌}
use sentry25navi.Livox.Messages.{PointXyzi}
use sentry25navi.Perception.Clouds.{Numbers}
use sentry25navi.PointLio.Records.{PointType}
use sentry25navi.PointLio.Scans.{Preprocess, Literals, Layers, SpinPoint, is_far}
use sentry25navi.PointLio.Spin.{
  last_of, new_layers, layer_after, layer_round, spin_keep, spin_round, spin_loop, velodyne_handler,
  hesai_handler,
}

abbrev pub is_none {ℓ} : {A : Type ℓ} → Option A → Bool
is_none none = true
is_none (some a) = false

is_none-bind {ℓ κ} :
    {A : Type ℓ} {B : Type κ} (o : Option A) (f : A → B)
    → is_none (o >>= λ a. some (f a)) ≡ is_none o
is_none-bind none f = refl
is_none-bind (some a) f = refl

get_elem?-none {ℓ} : {A : Type ℓ} (xs : List A) (i : ℕ) → length xs ≤ i → get_elem? xs i ≡ none
get_elem?-none [] i h = refl
get_elem?-none (x ∷ xs) zero h = absurd (omega arith)
get_elem?-none (x ∷ xs) (suc i) h = get_elem?-none xs i (omega arith)

or_true : (a : Bool) → (a || true) ≡ true
or_true true = refl
or_true false = refl

or_and : (a b c : Bool) → (a || b) ≡ true → (a || c) ≡ (a || b && c)
or_and true b c h = refl
or_and false true c h = refl
or_and false false c h = absurd (ground arith)

or_false : (a b : Bool) → (a || b) ≡ false → (a ≡ false) × (b ≡ false)
or_false a b h = ground arith

or_and_false : (a b c : Bool) → a ≡ false → b ≡ false → (a || b && c) ≡ false
or_and_false a b c h k = rw (h, k) refl

inside_of : (a : Bool) (i m : ℕ) → a ≡ false → (a || ltb i m) ≡ true → i < m
inside_of a i m h k = ground arith

outside_of : (i m : ℕ) → ltb i m ≡ false → m ≤ i
outside_of i m h = ground arith

not_zero : {m : ℕ} → 0 < m → (m == 0) ≡ false
not_zero h = ground arith

module _ {F : Type 0} where
  -- Every point has one of the first layers.
  abbrev pub rings_fit : ℕ → List (SpinPoint F) → Bool
  rings_fit n_scans [] = true
  rings_fit n_scans (p ∷ rest) = ltb p.ring n_scans && rings_fit n_scans rest

  record Sized (size : ℕ) (layers : Layers F) : Type 0 where
    firsts : length layers.is_first ≡ size
    starts : length layers.yaw_fp ≡ size
    times : length layers.time_last ≡ size

module _ {F : Type 0} (n : Numbers F) (l : Literals F) (s : Preprocess F) where
  spin_keep_lem :
      (i : ℕ) (p : PointXyzi F) (t : F) (surf : List (PointType F (PointXyzi F)))
      → 0 < s.point_filter_num
      → (surf' : List (PointType F (PointXyzi F))) × (spin_keep n l s i p t surf ≡ some surf')
  unfolding spin_keep
  spin_keep_lem i p t surf pos =
      elim (Bool-cases (i % s.point_filter_num == 0 && is_far n s.blind p)) [
        | inl keeps ↦ (surf ++ record { point = p; curvature = t } ∷ [], simp (not_zero pos, keeps))
        | inr drops ↦ (surf, simp (not_zero pos, drops))
      ]

  layer_after-Sized :
      (layers : Layers F) (p : SpinPoint F) (first : Bool) (fp last : F)
      → Sized s.n_scans layers
      → Sized s.n_scans (layer_after n l s layers p first fp last).0
  unfolding layer_after
  layer_after-Sized layers p true fp last sized = record {
    firsts = length-set layers.is_first p.ring false ∙ sized.firsts;
    starts = length-set layers.yaw_fp p.ring _ ∙ sized.starts;
    times = length-set layers.time_last p.ring _ ∙ sized.times;
  }
  layer_after-Sized layers p false fp last sized = record {
    firsts = sized.firsts;
    starts = sized.starts;
    times = length-set layers.time_last p.ring _ ∙ sized.times;
  }

  layer_round_lem :
      (layers : Layers F) (p : SpinPoint F)
      → Sized s.n_scans layers
      → p.ring < s.n_scans
      → (layers' : Layers F) × (t : Option F) × (layer_round n l s layers p ≡ some (layers', t))
        × Sized s.n_scans layers'
  unfolding layer_round
  layer_round_lem layers p sized inside =
      let (first, at) = get_elem?-some layers.is_first p.ring (omega (arith, sized.firsts)) in
      let (fp, fp_at) = get_elem?-some layers.yaw_fp p.ring (omega (arith, sized.starts)) in
      let (last, last_at) = get_elem?-some layers.time_last p.ring (omega (arith, sized.times)) in
      (
        (layer_after n l s layers p first fp last).0,
        (layer_after n l s layers p first fp last).1,
        simp (at, fp_at, last_at),
        layer_after-Sized layers p first fp last sized,
      )

  layer_round-none :
      (layers : Layers F) (p : SpinPoint F)
      → Sized s.n_scans layers
      → s.n_scans ≤ p.ring
      → layer_round n l s layers p ≡ none
  unfolding layer_round
  layer_round-none layers p sized outside =
      rw (get_elem?-none layers.is_first p.ring (omega (arith, sized.firsts))) refl

  free_round :
      (time_of : SpinPoint F → F) (i : ℕ) (layers : Layers F) (p : SpinPoint F)
      (surf : List (PointType F (PointXyzi F))) {layers' : Layers F}
      → 0 < s.point_filter_num
      → s.given_offset_time ≡ false
      → (t : Option F) → layer_round n l s layers p ≡ some (layers', t)
      → (surf' : List (PointType F (PointXyzi F))) × (spin_round n l s time_of i layers p surf
          ≡ some (layers', surf'))
  unfolding spin_round
  free_round time_of i layers p surf pos free none run = (surf, simp (free, run))
  free_round time_of i layers p surf pos free (some t) run =
      let (surf', kept) = spin_keep_lem i p.at t surf pos in (surf', simp (free, run, kept))

  outside_round :
      (time_of : SpinPoint F → F) (i : ℕ) (layers : Layers F) (p : SpinPoint F)
      (surf : List (PointType F (PointXyzi F)))
      → Sized s.n_scans layers
      → s.given_offset_time ≡ false
      → ltb p.ring s.n_scans ≡ false
      → spin_round n l s time_of i layers p surf ≡ none
  unfolding spin_round
  outside_round time_of i layers p surf sized free out =
      simp (free, layer_round-none layers p sized (outside_of p.ring s.n_scans out))

  -- A round whose point has a time or a layer.
  spin_round_lem :
      (time_of : SpinPoint F → F) (i : ℕ) (layers : Layers F) (p : SpinPoint F)
      (surf : List (PointType F (PointXyzi F)))
      → 0 < s.point_filter_num
      → Sized s.n_scans layers
      → (s.given_offset_time || ltb p.ring s.n_scans) ≡ true
      → (layers' : Layers F) × (surf' : List (PointType F (PointXyzi F))) × (spin_round n l s
            time_of i layers p surf
          ≡ some (layers', surf'))
        × Sized s.n_scans layers'
  unfolding spin_round
  spin_round_lem time_of i layers p surf pos sized fits = elim (Bool-cases s.given_offset_time) [
    | inl given ↦
        let (surf', run) = spin_keep_lem i p.at (time_of p) surf pos in
        (layers, surf', simp (given, run), sized)
    | inr free ↦
        let (layers', t, run, sized') =
          layer_round_lem layers p sized (inside_of _ p.ring s.n_scans free fits) in
        let (surf', run') = free_round time_of i layers p surf pos free t run in
        (layers', surf', run', sized')
  ]

  spin_loop_lem :
      (time_of : SpinPoint F → F) (i : ℕ) (layers : Layers F) (points : List (SpinPoint F))
      (surf : List (PointType F (PointXyzi F)))
      → 0 < s.point_filter_num
      → Sized s.n_scans layers
      → is_none (spin_loop n l s time_of i layers points surf)
        ≡ not (s.given_offset_time || rings_fit s.n_scans points)
  unfolding spin_loop
  spin_loop_lem time_of i layers [] surf pos sized = ap not (sym (or_true s.given_offset_time))
  spin_loop_lem time_of i layers (p ∷ rest) surf pos sized =
      elim (Bool-cases (s.given_offset_time || ltb p.ring s.n_scans)) [
        | inl fits ↦
            let (layers', surf', run, sized') =
              spin_round_lem time_of i layers p surf pos sized fits in
            rw run (
              spin_loop_lem time_of (i + 1) layers' rest surf' pos sized'
              ∙ ap not (or_and s.given_offset_time _ _ fits))
        | inr out ↦
            let both = or_false s.given_offset_time _ out in
            rw (outside_round time_of i layers p surf sized both.0 both.1) (
              sym (
                ap not
                  (or_and_false s.given_offset_time _ (rings_fit s.n_scans rest) both.0 both.1)))
      ]

module _ {F : Type 0} (n : Numbers F) (l : Literals F) (s : Preprocess F) where
  new_layers-Sized : Sized s.n_scans (new_layers n l s.n_scans)
  new_layers-Sized = record {
    firsts = length-replicate s.n_scans true;
    starts = length-replicate s.n_scans n.zero_f;
    times = length-replicate s.n_scans n.zero_f;
  }

  -- With a filter of at least 1, both handlers make a fault on a scan exactly when its last point has no time
  -- and one of its points has a layer that the settings do not count.
  pub velodyne_handler-eq-none :
      (p : SpinPoint F) (rest : List (SpinPoint F))
      → 0 < s.point_filter_num
      → (is_none (velodyne_handler n l (p ∷ rest) s)
          ≡ not (n.lt (n.zero_f) (last_of p rest).time || rings_fit s.n_scans (p ∷ rest)))
        × (is_none (hesai_handler n l (p ∷ rest) s)
            ≡ not (n.lt (n.zero_f) (last_of p rest).time || rings_fit s.n_scans (p ∷ rest)))
  unfolding velodyne_handler hesai_handler
  velodyne_handler-eq-none p rest pos =
      let s' = record s { given_offset_time = n.lt (n.zero_f) (last_of p rest).time } in
      (
        is_none-bind
              (spin_loop n l s' (λ q. n.mul q.time s.time_unit_scale) 0 (new_layers n l s.n_scans)
                (p ∷ rest) [])
              (λ surf. record s' { pl_surf = surf })
            ∙ spin_loop_lem n l s' (λ q. n.mul q.time s.time_unit_scale) 0
                (new_layers n l s.n_scans) (p ∷ rest) [] pos new_layers-Sized,
        is_none-bind
              (spin_loop n l s' (λ q. l.seconds_to_ms (n.sub q.time p.time)) 0
                (new_layers n l s.n_scans) (p ∷ rest) [])
              (λ surf. record s' { pl_surf = surf })
            ∙ spin_loop_lem n l s' (λ q. l.seconds_to_ms (n.sub q.time p.time)) 0
                (new_layers n l s.n_scans) (p ∷ rest) [] pos new_layers-Sized,
      )
