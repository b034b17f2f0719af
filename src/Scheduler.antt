-- ===== src/Scheduler.antt =====
-- The schedulers of lib/simple_scheduler.cpp and lib/global_fifo_scheduler.cpp, and what the two share.
pub mod Timers
pub mod Files
pub mod Calls
pub mod Queue
pub mod Fifo
pub mod Simple
