-- ===== src/Utils.antt =====
-- src/utils: the state machine, the stopwatch, the ring of recent values and the text helpers.
pub mod StateManager
pub mod CircularArray
pub mod Timer
pub mod Helpers
