-- ===== src/Lib.antt =====
-- The robot's navigation stack: the lidar driver (src/livox_ros_driver2-master/src), the nodes that read the
-- scans (src/Point-LIO-master, src/segmentation, src/relocalization, src/tracking), the controller
-- (src/navigation), and the simulated lidar and vehicle (src/livox_laser_simulation, src/sentry_simulation).
--
-- The SDK's callbacks hand packets to the packet handler, which gathers their points lidar by lidar and hands
-- frames on to the data source, and IMU samples to the data source itself. The data source finds the slot of
-- a device by its handle and puts the data in its ring or queue, and the publisher takes the data out. The
-- detector compares the published scans with a map and sends a flag on /diverge, which stops the
-- controller and starts the relocalization. What the driver's message holds is filtered by the preprocessing
-- before the buffers of Point-LIO take it.
-- The driver's files stand under src/livox_ros_driver2-master/src.
--   Livox/Ldq         the ring of packets, comm/ldq.h and comm/ldq.cpp
--   Livox/Comm        shared types and text helpers, comm/comm.h and comm/comm.cpp
--   Livox/ImuQueue    the queue of samples, comm/lidar_imu_data_queue.cpp
--   Livox/Semaphore   comm/semaphore.cpp
--   Livox/CacheIndex  the table of slots, comm/cache_index.cpp
--   Livox/Lds         the data source, lds.h and lds.cpp
--   Livox/RawPoints   the points of a packet, comm/pub_handler.cpp
--   Livox/LidarPubHandler  what the packet handler keeps for a lidar, comm/pub_handler.cpp
--   Livox/PubHandler  the packet handler, its timer and its thread, comm/pub_handler.cpp
--   Livox/Messages    the messages, lddc.cpp
--   Livox/Lddc        the publisher, lddc.h and lddc.cpp, as the ROS 1 build has it
--   Livox/Callback    the callbacks of the SDK, call_back/*.cpp
--   Livox/Config      the configuration parsers, parse_cfg_file/*.cpp
--   Livox/LdsLidar    the start of the data source, lds_lidar.cpp
--   Livox/Samples     concrete values for the tests
--   PointLio/Records           the globals and measures of src/Point-LIO-master
--   PointLio/LaserMapping      the buffers of scans and samples, src/Point-LIO-master/src/laserMapping.cpp
--   PointLio/Scans, Spin, Preprocess   the filtering of scans, src/Point-LIO-master/src/preprocess.cpp
--   PointLio/ImuProcess        the start of the IMU, src/Point-LIO-master/src/IMU_Processing.hpp
--   PointLio/LocalMap          the cube of the map, src/Point-LIO-master/src/laserMapping.cpp
--   PointLio/MapIncrement      the points that a scan adds to the map, in the same file
--   Simulation/CsvReader       the table of rays, src/livox_laser_simulation/include
--   Simulation/LaserPlugin     the rays of a scan, src/livox_laser_simulation/src/livox_points_plugin.cpp
--   Simulation/LaserMessages   what is published of it, in the same file
--   Simulation/Vehicle         the vehicle, src/sentry_simulation/src/vehicle_simulator.cpp
--   Navigation/Controller      src/navigation/src/controller.cpp and its header, include/navigation/utility.hpp
--   Perception/Clouds          points and transforms, as PCL and Eigen give them
--   Perception/Segmentation    src/segmentation/src/segmentation.cpp, include/segmentation/utility.hpp
--   Perception/Relocalization  src/relocalization/src/relocalization.cpp
--   Perception/Tracking        src/tracking/src/tracking.cpp
--   Perception/Divergence      the flag on /diverge in the two nodes that read it
-- The definitions keep the names of the functions in snake case (QueuePushAny is queue_push_any). A call is
-- one step on explicit state, `none` is a fault (a null or freed array, an index out of range, a division by
-- zero, a JSON value that has another type), and unsigned arithmetic wraps at its width. A float is an element of a parameter, with the operations
-- on it that the code uses. Loops over a count recurse on that count; the loops of ReplacePeriodByUnderline,
-- of the publisher, of FindNearstPose, of the rays and of the pointer of the vehicle run on fuel, and the
-- theorems on them say how much is enough (400 for the pointer, one more than the samples for the rays).
-- The SDK, the JSON library, inet_ntoa and inet_addr, tf, PCL, small_gicp, the spline and the simulator are
-- parameters. Calls do not overlap: the model runs one call after another, on one thread. Not modelled are the threads and
-- parameters of the nodes, the ROS 2 variants, what the plugin sets in the simulator, its publisher with a
-- parallel loop, the keyboard, and of Point-LIO the filter and what it brings along,
-- copies of other projects.
pub mod Prelude
pub mod Livox
pub mod Perception
pub mod PointLio
pub mod Simulation
pub mod Navigation
