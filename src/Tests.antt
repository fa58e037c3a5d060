-- ===== src/Tests.antt =====
-- The theorems at concrete inputs.
pub mod Memory
pub mod Tasks
pub mod Devices
pub mod Files
pub mod Spaces
pub mod Programs
pub mod Archives
pub mod Lines
pub mod Shells
pub mod Startup
