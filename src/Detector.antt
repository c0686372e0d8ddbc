-- ===== src/Detector.antt =====
-- Which vehicle is on the bus: src/domain/VehicleDetector.cpp and its header. The mutex is not
-- modelled: every operation is one step.
pub mod Observe
pub mod Evidence
pub mod Wmi
pub mod Report
pub mod Bounds
pub mod History
pub mod Counting
pub mod Suggestion
