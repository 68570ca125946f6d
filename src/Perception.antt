-- ===== src/Perception.antt =====
-- The packages that read the scans, src/segmentation, src/relocalization and src/tracking.
pub mod Clouds
pub mod Segmentation
pub mod Relocalization
pub mod Tracking
pub mod Divergence
