-- ===== src/Lib.antt =====
-- bom-media-api: a NestJS service that hands review videos to the visitors of share links and lets
-- admins manage them. This library models the parts of it whose correctness is more than a query.
--
-- Common holds strings as lists of UTF-16 code units (Common.Strings), JavaScript maps as lists in
-- the order of insertion (Common.JsMap), and lists and tests.
--
-- Cache: src/cache/memory-cache.service.ts. A cache is a state; each method is a function of it.
--   getOrSet is three steps (begin, settle, finish), since other requests run while the factory
--   does. Cache.Config is the reading of the configuration.
-- ViewGrowth: src/videos/video-view-growth.service.ts, recordPublicVideoView and its helpers, over
--   the tables VideoViewGrowthEvent, VideoViewGrowthBucket and VideoAsset of prisma/schema.prisma. A
--   turn is a request that runs alone, or the commit of one that chose its increment earlier.
-- ShareLinks: getDeniedReason, getDeniedReasonForMediaPlayback and incrementShareLinkView of
--   src/public/public.service.ts; disableVideo, the change of status in updateVideo and the updates
--   of links that they make in src/videos/videos.service.ts; revokeShareLink of
--   src/admin-websites/admin-websites.service.ts. A view is counted from a link that was read
--   before, so that requests with the same stale read are runs of the model; likewise updateVideo
--   gets the status that it read before its transaction. The time that the database client writes
--   into updatedAt is a parameter of each update.
-- Canonical: src/admin-websites/utils/canonical-adoption-policy.util.ts.
-- AdminAuth: src/admin-auth/admin-auth.service.ts, admin-credential.service.ts and
--   guards/admin-access-token.guard.ts: login, refresh, logout, password change, revocation and the
--   guard. rotate is the transaction of refresh by itself, so that it may run on a database that
--   another request changed after the token was read.
-- Grants: src/public/utils/grant-signature.util.ts and src/public/public-media-grant.service.ts; the
--   HMAC, base64url and JSON of Node.js are parameters (Grants.Node).
-- Accounts: src/admin-accounts/admin-accounts.service.ts. Each request is as_owner (the flag of the
--   feature, the role, the password of an owner) around a transaction; the transactions run by
--   themselves too, for an actor whose row was read earlier.
-- Uploads: initLocalVideoUpload, uploadLocalVideoChunk, completeLocalVideoUpload,
--   cancelLocalVideoUpload and the expiry of sessions in src/videos/videos.service.ts, with
--   mergeChunksToFinalFile of src/videos/storage/local-video-storage.service.ts. The state is one
--   upload and the requests in flight: those that saved a chunk and not its row, those that checked the
--   upload for completion, and those that own its completion. The clean-up of stale uploads that
--   these requests begin with is a step of its own, since others run before what follows it.
-- ShareUrls: src/admin-websites/utils/share-url.util.ts and src/common/utils/domain.util.ts; the URL
--   constructor, toLowerCase and encodeURIComponent of JavaScript are parameters.
-- CanonicalLinks: src/admin-websites/canonical-share-link.service.ts over its tables
--   (CanonicalLinks.Tables), with the eligibility of videos from admin-websites.service.ts and the
--   policy of Canonical. CanonicalLinks.Create is createOrGetCanonical, with its at most five
--   attempts, and adoptExistingShareLink; CanonicalLinks.Reuse is reuseCanonical, the backfill of a
--   transport alias included. Other requests are a function on the database before each look-up and
--   each transaction of an attempt. CanonicalLinks.Steps are the transactions of this service and
--   the other changes of its tables in a row.
--
-- Numbers are natural numbers: counts, and times in milliseconds. Every function ends by structural
-- recursion; no fuel is used. Random draws, digests, bcrypt, the signer of tokens and Unicode
-- normalisation are parameters. A transaction is one step. The response objects of the controllers,
-- logging and the metadata of the audit rows are not modelled, nor is what the manifest lists as
-- such: websites, the external services, configuration and scripts.
mod Common
pub mod Cache
pub mod ViewGrowth
pub mod ShareLinks
pub mod Canonical
pub mod AdminAuth
pub mod Grants
pub mod Accounts
pub mod ShareUrls
pub mod CanonicalLinks
pub mod Uploads
