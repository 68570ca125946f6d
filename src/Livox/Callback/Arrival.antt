-- ===== src/Livox/Callback/Arrival.antt =====
-- The callbacks that bring data (lidar_common_callback.cpp). A null pointer is `none`.
use sentry25navi.Prelude.{
  ◌≡◌, refl, Option, none, some, ◌==◌, if◌then◌else◌, arith, Bool-cases, inl, inr,
}
use sentry25navi.Livox.Ldq.{StoragePacket}
use sentry25navi.Livox.Comm.{PointXyzlt, ImuData, Frequency}
use sentry25navi.Livox.Lds.{Lds, PointFrame, storage_point_data, storage_loop, storage_imu_data}

module _ {F : Type 0} where
  unfoldable pub lidar_imu_data_callback : Lds F → Option (ImuData F) → Option (Lds F)
  lidar_imu_data_callback s none = some s
  lidar_imu_data_callback s (some imu_data) = storage_imu_data s imu_data

  module _ (fresh : StoragePacket (PointXyzlt F)) (n : Frequency F) where
    unfoldable pub on_lidar_point_cloud_cb : Lds F → Option (PointFrame F) → Option (Lds F)
    on_lidar_point_cloud_cb s none = some s
    on_lidar_point_cloud_cb s (some frame) =
        if frame.lidar_num == 0 then some s else storage_point_data fresh n s (some frame)

    -- The tests before the call only skip work: the state after it is what `StoragePointData` alone gives.
    pub on_lidar_point_cloud_cb_lem :
        (s : Lds F) (frame : Option (PointFrame F))
        → on_lidar_point_cloud_cb s frame ≡ storage_point_data fresh n s frame
    unfolding on_lidar_point_cloud_cb storage_point_data storage_loop
    on_lidar_point_cloud_cb_lem s none = refl
    on_lidar_point_cloud_cb_lem s (some frame) = elim (Bool-cases (frame.lidar_num == 0)) [
      | inl bare ↦ ground (arith, bare)
      | inr more ↦ rw more refl
    ]
