-- ===== src/Uploads.antt =====
-- Chunked uploads: src/videos/videos.service.ts and src/videos/storage/local-video-storage.service.ts.
pub mod Sessions
pub mod Chunks
pub mod Completion
pub mod Steps
pub mod Whole
pub mod InFlight
pub mod Invariant
pub mod Owned
pub mod Complete
pub mod Roundtrip
pub mod Pieces
pub mod Progress
pub mod Sending
pub mod Tests
