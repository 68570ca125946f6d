-- ===== src/Navigation.antt =====
-- The package that drives the robot along a path, src/navigation.
pub mod Controller
