-- ===== src/Server.antt =====
-- The HTTP server (src/server).
pub mod Broadcast
pub mod Session
pub mod Forwarding
pub mod Terminal
pub mod DrainJobs
pub mod DrainProgress
pub mod DrainWorker
