-- ===== src/A3.antt =====
-- Assignment 3: frames for pages and the processes that own them (a3/).
pub mod Memory
pub mod List
pub mod Pcb
pub mod Interpreter
pub mod Kernel
pub mod Shell
mod Tests
