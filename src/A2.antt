-- ===== src/A2.antt =====
-- Assignment 2: processes, scheduling and demand paging (a2/).
pub mod Memory
pub mod Kernel
pub mod Interpreter
pub mod Loader
pub mod Pcb
pub mod Store
pub mod Scheduler
pub mod Shell
mod Tests
pub mod ReadyQueue
