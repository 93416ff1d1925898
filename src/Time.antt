-- ===== src/Time.antt =====
-- monoio/src/time: timers, the wheel that keeps them, and intervals.
pub mod Entry
pub mod Interval
pub mod Wheel
pub mod Driver
