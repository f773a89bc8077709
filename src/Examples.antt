-- ===== src/Examples.antt =====
-- Runs of the models at concrete inputs.
pub mod Cluster
pub mod Logs
pub mod Pages
pub mod Elections
pub mod Filters
pub mod Requests
pub mod Trees
pub mod Service
pub mod LostKeys
pub mod Splits
