-- ===== src/Simulation.antt =====
-- The simulation: src/livox_laser_simulation and src/sentry_simulation.
pub mod CsvReader
pub mod LaserPlugin
pub mod LaserMessages
pub mod Vehicle
