-- ===== src/Probe.antt =====
-- src/rtsp_proxy/probes.py: what probes are, the health of a camera, the scheduler and the store of
-- results.
pub mod Text
pub mod Kinds
pub mod Data
pub mod Identity
pub mod Eligibility
pub mod Health
pub mod Scheduler
pub mod Store
mod Examples
