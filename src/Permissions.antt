-- ===== src/Permissions.antt =====
-- src/agent_fault_lab/permissions.py: proposals, grants and the writes that they admit.
-- A `PermissionStore` is its database file and its run; the run is the argument `run_id`. `uuid4()`
-- and the reading of `time.time()` are arguments.
pub mod Records
pub mod Grants
pub mod Writes
pub mod Requests
pub mod Session
pub mod Receipts
pub mod Replay
mod Examples
