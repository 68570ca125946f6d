-- ===== src/Simulation/Vehicle/Keeping.antt =====
-- What the callbacks of the simulated vehicle leave as it is, vehicle_simulator.cpp.
use sentry25navi.Prelude.{
  ◌<◌, ◌≡◌, refl, ap, subst, Bool, true, false, ◌&&◌, Option, none, some, List, if◌then◌else◌,
  arith,
}
use sentry25navi.Livox.Lds.{◌>>=◌}
use sentry25navi.Livox.Messages.{PointXyzi}
use sentry25navi.Simulation.Vehicle.{World, VehicleSimulator}
use sentry25navi.Simulation.Vehicle.Ground.{
  Ground, gathered, is_valid_height, raised, with_height, with_slope, terrian_cloud_callback,
}

pub record Kept {F : Type 0} (s s' : VehicleSimulator F) : Type 0 where
  pub stack : s'.stack ≡ s.stack
  pub sent : s'.odom_send_id_pointer ≡ s.odom_send_id_pointer
  pub inside : s'.odom_rec_id_pointer < 400

module _ {F : Type 0} (s : VehicleSimulator F) where
  -- What is returned, if anything is, keeps the ring.
  pub record KeepsRing (o : Option (VehicleSimulator F × List (PointXyzi F))) : Type 0 where
    pub at : (r : VehicleSimulator F × List (PointXyzi F)) → o ≡ some r → Kept s r.0

  abbrev state_of : Option (VehicleSimulator F × List (PointXyzi F)) → VehicleSimulator F
  state_of none = s
  state_of (some r) = r.0

  KeepsRing-some :
      (s' : VehicleSimulator F) (incl : List (PointXyzi F))
      → Kept s s'
      → KeepsRing (some (s', incl))
  KeepsRing-some s' incl k = record { at = λ r e. subst (Kept s) (ap state_of e) k }

  Kept-if :
      (b : Bool) (x y : VehicleSimulator F) → Kept s x → Kept s y → Kept s (if b then x else y)
  Kept-if true x y k k' = k
  Kept-if false x y k k' = k'

  KeepsRing-if :
      (b : Bool) (x y : Option (VehicleSimulator F × List (PointXyzi F)))
      → KeepsRing x
      → KeepsRing y
      → KeepsRing (if b then x else y)
  KeepsRing-if true x y k k' = k
  KeepsRing-if false x y k k' = k'

  KeepsRing-bind {ℓ} :
      {A : Type ℓ} (o : Option A) (f : A → Option (VehicleSimulator F × List (PointXyzi F)))
      → ((a : A) → KeepsRing (f a))
      → KeepsRing (o >>= f)
  KeepsRing-bind none f k = record { at = λ r e. absurd (ground arith) }
  KeepsRing-bind (some a) f k = k a

module _ {F Q : Type 0} (w : World F Q) (g : Ground F) where
  pub terrian_cloud_callback-KeepsRing :
      (cloud incl : List (PointXyzi F)) (s : VehicleSimulator F)
      → s.odom_rec_id_pointer < 400
      → KeepsRing s (terrian_cloud_callback w g cloud incl s)
  unfolding terrian_cloud_callback
  terrian_cloud_callback-KeepsRing cloud incl s inside =
      let same : Kept s s = record { stack = refl; sent = refl; inside = inside } in
      let found = gathered w g s.vehicle cloud incl in
      let s' = with_height w g found s in
      let higher : Kept s s' =
        Kept-if s (is_valid_height w g found && g.adjust_z) (raised w g found s) s
          (record { stack = refl; sent = refl; inside = inside }) same in
      KeepsRing-if s _ _ _ (KeepsRing-some s s incl same) (
        KeepsRing-if s _ _ _ (KeepsRing-some s s' found.terrian_cloud_incl higher) (
          KeepsRing-bind s _ _ (λ r. KeepsRing-some s _ found.terrian_cloud_incl (
            Kept-if s _ (with_slope w g r.0 s') s'
              (record { stack = higher.stack; sent = higher.sent; inside = higher.inside })
              higher))))
