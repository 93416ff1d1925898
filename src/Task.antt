-- ===== src/Task.antt =====
-- monoio/src/task: the tasks of the executor.
pub mod State
pub mod Cell
pub mod Harness
pub mod Waker
pub mod Join
pub mod Life
