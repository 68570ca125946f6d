-- ===== src/Perception/Divergence.antt =====
-- What the messages on `/diverge` do to the two nodes that read them: the controller of the navigation and
-- the relocalization. The detector sends them, one for each scan that it looks at.
use sentry25navi.Prelude.{◌≡◌, refl, ◌∙◌, Bool, true, false, ◌||◌, List, [], ◌∷◌, ◌++◌, arith}
use sentry25navi.Navigation.Controller.{Controller, localization_status_callback}
use sentry25navi.Perception.Relocalization.{Relocalization, diverge_callback}

-- The controller after some messages, and the relocalization after the same.
module _ {F : Type 0} where
  abbrev pub told : Controller F → List Bool → Controller F
  told c [] = c
  told c (b ∷ bs) = told (localization_status_callback c b) bs

module _ {F T : Type 0} where
  abbrev pub informed : Relocalization F T → List Bool → Relocalization F T
  informed c [] = c
  informed c (b ∷ bs) = informed (diverge_callback c b) bs

abbrev pub any : List Bool → Bool
any [] = false
any (b ∷ bs) = b || any bs

abbrev pub last_or : Bool → List Bool → Bool
last_or before [] = before
last_or before (b ∷ bs) = last_or b bs

told-diverge :
    {F : Type 0} (c : Controller F) (bs : List Bool) → (told c bs).diverge ≡ (c.diverge || any bs)
unfolding localization_status_callback
told-diverge c [] = ground arith
told-diverge c (true ∷ bs) =
    told-diverge (record c { diverge = true; plan = false }) bs ∙ ground arith
told-diverge c (false ∷ bs) = told-diverge c bs

informed-diverge :
    {F T : Type 0} (c : Relocalization F T) (bs : List Bool)
    → (informed c bs).diverge ≡ last_or c.diverge bs
unfolding diverge_callback
informed-diverge c [] = refl
informed-diverge c (b ∷ bs) = informed-diverge (record c { diverge = b }) bs

-- After the same messages the relocalization believes the last of them and the controller that it diverged
-- if any of them said so: once the scans fit the map again, the one knows it and the other does not.
pub told-informed :
    {F G T : Type 0} (c : Controller F) (r : Relocalization G T) (bs : List Bool)
    → ((told c (bs ++ true ∷ false ∷ [])).diverge ≡ true)
      × ((informed r (bs ++ true ∷ false ∷ [])).diverge ≡ false)
      × ((told c bs).diverge ≡ (c.diverge || any bs))
      × ((informed r bs).diverge ≡ last_or r.diverge bs)
told-informed c r bs = (
  told-diverge c (bs ++ true ∷ false ∷ []) ∙ any-true c.diverge bs,
  informed-diverge r (bs ++ true ∷ false ∷ []) ∙ last_or-false r.diverge bs,
  told-diverge c bs,
  informed-diverge r bs,
)
  where
    any-true : (before : Bool) (bs : List Bool) → (before || any (bs ++ true ∷ false ∷ [])) ≡ true
    any-true true bs = refl
    any-true false [] = refl
    any-true false (true ∷ bs) = refl
    any-true false (false ∷ bs) = any-true false bs

    last_or-false :
        (before : Bool) (bs : List Bool) → last_or before (bs ++ true ∷ false ∷ []) ≡ false
    last_or-false before [] = refl
    last_or-false before (b ∷ bs) = last_or-false b bs
