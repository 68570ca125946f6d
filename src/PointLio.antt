-- ===== src/PointLio.antt =====
-- The odometry node, src/Point-LIO-master. Of it, the filtering of scans, the buffers between the callbacks
-- and the filter, the start of the IMU and the cube of the map.
pub mod Records
pub mod Scans
pub mod Spin
pub mod Preprocess
pub mod LaserMapping
pub mod ImuProcess
pub mod LocalMap
pub mod MapIncrement
