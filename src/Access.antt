-- ===== src/Access.antt =====
-- access.py: who may read a stream.
pub mod Grants
pub mod Floats
pub mod Limiter
pub mod Telemetry
pub mod Authorizer
pub mod Control
mod Examples
