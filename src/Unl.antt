-- ===== src/Unl.antt =====
-- src/UniqueNodeList/UniqueNodeList.cpp: the list of trusted nodes.
pub mod Compute
pub mod Fetch
pub mod Index
pub mod Rounds
pub mod Runs
pub mod Scoring
pub mod Seeds
pub mod Sites
pub mod Sources
pub mod Startup
pub mod State
