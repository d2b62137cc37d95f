-- ===== src/Timers.antt =====
-- crates/orlando-timers: the reminders of a silo.
pub mod Reminders
