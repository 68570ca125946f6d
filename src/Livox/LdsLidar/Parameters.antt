-- ===== src/Livox/LdsLidar/Parameters.antt =====
-- The extrinsic parameters handed to the packet handler for a configured device (lds_lidar.cpp).
use sentry25navi.Prelude.{
  ℕ, ◌+◌, ◌*◌, ◌/◌, ◌≤◌, ◌<◌, ◌≡◌, refl, Bool, true, false, arith, inl, inr, Bool-cases, ◌==◌,
}
use sentry25navi.Prelude.Int.{ℤ, pos, negsuc}
use sentry25navi.Livox.Comm.{livox_lidar_type, UserLivoxLidarConfig}
use sentry25navi.Livox.LdsLidar.{LidarExtParameter, tenth, ext_parameter}

-- The second number is a tenth of the first, cut towards 0.
pub data IsTenth : ℤ → ℤ → Type 0 where
  above : {a b : ℕ} → 10 * b ≤ a → a < 10 * b + 10 → IsTenth (pos a) (pos b)
  near : {a : ℕ} → a + 1 < 10 → IsTenth (negsuc a) (pos 0)
  below :
      {a b : ℕ} → 10 * (b + 1) ≤ a + 1 → a + 1 < 10 * (b + 1) + 10 → IsTenth (negsuc a) (negsuc b)

tenth-IsTenth : (n : ℤ) → IsTenth n (tenth n)
unfolding tenth
tenth-IsTenth (pos n) = above (omega arith) (omega arith)
tenth-IsTenth (negsuc n) = elim (Bool-cases ((n + 1) / 10 == 0)) [
  | inl less ↦ rw less (near (ground (arith, less)))
  | inr more ↦ rw more (below (ground (arith, more)) (ground (arith, more)))
]

module _ {F : Type 0} (is_low_data : ℤ → Bool) where
  -- The parameters `q` belong to the device of `config`: they have its handle and its angles. Its place is
  -- kept, but a tenth of it is taken for data in centimetres.
  pub record IsParameterOf (config : UserLivoxLidarConfig F) (q : LidarExtParameter F)
      : Type 0 where
    pub handle : q.handle ≡ config.handle
    pub lidar_type : q.lidar_type ≡ livox_lidar_type
    pub roll : q.param.roll ≡ config.extrinsic_param.roll
    pub pitch : q.param.pitch ≡ config.extrinsic_param.pitch
    pub yaw : q.param.yaw ≡ config.extrinsic_param.yaw
    pub millimetres : is_low_data config.pcl_data_type ≡ false → q.param ≡ config.extrinsic_param
    pub centimetres :
        is_low_data config.pcl_data_type ≡ true
        → IsTenth config.extrinsic_param.x q.param.x
          × IsTenth config.extrinsic_param.y q.param.y
          × IsTenth config.extrinsic_param.z q.param.z

  pub ext_parameter-IsParameterOf :
      (config : UserLivoxLidarConfig F) → IsParameterOf config (ext_parameter is_low_data config)
  unfolding ext_parameter
  ext_parameter-IsParameterOf config = elim (Bool-cases (is_low_data config.pcl_data_type)) [
    | inl low ↦ rw low (record {
      handle = refl;
      lidar_type = refl;
      roll = refl;
      pitch = refl;
      yaw = refl;
      millimetres = λ h. absurd (ground (arith, h));
      centimetres = λ h. (
        tenth-IsTenth config.extrinsic_param.x,
        tenth-IsTenth config.extrinsic_param.y,
        tenth-IsTenth config.extrinsic_param.z,
      );
    })
    | inr high ↦ rw high (record {
      handle = refl;
      lidar_type = refl;
      roll = refl;
      pitch = refl;
      yaw = refl;
      millimetres = λ h. refl;
      centimetres = λ h. absurd (ground (arith, h));
    })
  ]
