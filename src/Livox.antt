-- ===== src/Livox.antt =====
-- The lidar driver, src/livox_ros_driver2-master/src.
pub mod Ldq
pub mod Comm
pub mod CacheIndex
pub mod Lds
pub mod ImuQueue
pub mod Semaphore
pub mod Samples
pub mod Messages
pub mod Lddc
pub mod Callback
pub mod LdsLidar
pub mod Config
pub mod RawPoints
pub mod LidarPubHandler
pub mod PubHandler
