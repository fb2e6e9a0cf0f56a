-- ===== src/Rtmp/Chunk.antt =====
-- The chunk layer, pkg/streaming/rtmp/chunk.go: a message is cut into chunks, and a reader puts
-- the chunks of several streams together again.
pub mod Reader
pub mod Writer
pub mod Output
pub mod Steps
pub mod Assembly
pub mod RoundTrip
pub mod Session
pub mod Wide
pub mod Termination
