-- ===== src/RoundTrip.antt =====
-- The agent's payloads read by the server's parser: for each type of entry what the parser recovers.
pub mod Net
pub mod System
pub mod Disk
pub mod Fs
pub mod Proc
pub mod Threads
pub mod Cut
