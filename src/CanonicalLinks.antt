-- ===== src/CanonicalLinks.antt =====
-- src/admin-websites/canonical-share-link.service.ts: the one permanent share link of a website and a
-- video, with the checks of src/admin-websites/admin-websites.service.ts that it makes.
pub mod Tables
pub mod Outcome
pub mod Evidence
pub mod Response
pub mod Reuse
pub mod Create
pub mod Steps
pub mod Pinned
pub mod Loading
pub mod Answers
pub mod Standing
pub mod Permanent
pub mod Tests
pub mod Exact
pub mod History
pub mod Answerable
pub mod Fresh
pub mod Backfill
pub mod Reusable
pub mod Servable
pub mod Shareable
