-- ===== src/Telemetry.antt =====
-- server/src/telemetry.rs: what of the telemetry is let through, and the values it reads from the
-- environment.
pub mod Dedup
pub mod Settings
