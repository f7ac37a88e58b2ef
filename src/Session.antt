-- ===== src/Session.antt =====
-- p2p/p2p.go and server/server.go together: the leecher's attemptDownloadPiece and the seeder's
-- handleConnection at the two ends of one connection.
pub mod Blocks
pub mod Seeded
pub mod Delivery
pub mod Rounds
pub mod Download
pub mod Serving
pub mod Content
mod Examples
