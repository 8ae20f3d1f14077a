-- ===== src/A1.antt =====
-- Assignment 1: the shell and its variable memory (a1/).
pub mod Memory
pub mod Shell
pub mod Wc
pub mod Interpreter
mod Tests
