-- ===== src/Sla.antt =====
-- SLA alerting: the modules of src/utils whose names begin with sla-, and utils/durations.ts.
pub mod Durations
pub mod Thresholds
pub mod Preferences
pub mod Urgency
pub mod Poller
pub mod Alerts
pub mod Scope
mod Tests
