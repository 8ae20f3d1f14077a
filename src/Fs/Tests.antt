-- ===== src/Fs/Tests.antt =====
-- The theorems about the file system (a3/fs/) on concrete states.
mod Caching
mod Inodes
mod Sparing
mod Growing
mod Naming
