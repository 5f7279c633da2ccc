-- ===== src/Alarm.antt =====
-- src/alarm.c: alarms, the list of pending ones by deadline, the two timers and the wake lock behind
-- them, and the queues through which expired alarms reach their callbacks.
pub mod Types
pub mod Schedule
pub mod Calls
pub mod Order
pub mod Valid
pub mod Preserve
pub mod Reach
pub mod Pending
pub mod Period
pub mod Setup
pub mod Cycles
mod Tests
