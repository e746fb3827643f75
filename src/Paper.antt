-- ===== src/Paper.antt =====
-- paper/workflow.py: the human authorization of a paper trade and its lifecycle.
pub mod Plan
pub mod Create
pub mod Authorize
pub mod Lifecycle
pub mod Close
pub mod Runner
pub mod Log
pub mod Settler
