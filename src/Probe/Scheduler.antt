-- ===== src/Probe/Scheduler.antt =====
-- `BoundedProbeScheduler` of probes.py: a weighted-fair scheduler with budgets for the server, for
-- each node, site and method, and with one request for each camera.
pub mod Reservations
pub mod State
pub mod Steps
pub mod Keeps
pub mod Ends
pub mod Expiry
pub mod Submit
pub mod Select
pub mod Budget
pub mod Claim
pub mod Finish
pub mod Runs
