-- ===== src/CanonicalLinks/Evidence.antt =====
-- src/admin-websites/canonical-share-link.service.ts: the evidence of a video's identity that is
-- stored with its canonical link.
use bom_media_api.Common.{
  ℕ, Bool, true, false, ◌&&◌, ◌||◌, not, Option, none, some, leb, ◌==◌, if◌then◌else◌, all, length,
  Text,
}
use bom_media_api.CanonicalLinks.Tables.{
  Db, Video, Asset, Snapshot, Canonical, SourceType, upload, direct_url, embed, db_blob, local_file,
  find_video,
}
use bom_media_api.CanonicalLinks.Outcome.{
  Env, Result, ok, err, ◌>>=◌, pure, check, found, video_not_found, evidence_incomplete,
}

-- `SHA256_HEX_PATTERN`.
unfoldable pub is_sha256_hex : Text → Bool
is_sha256_hex s = length s == 64 && all (λ c. (leb 48 c && leb c 57) || (leb 97 c && leb c 102)) s

abbrev is_checksum : Option Text → Bool
is_checksum none = false
is_checksum (some s) = is_sha256_hex s

pub record Integrity : Type 0 where
  pub checksum_sha256 : Option Text
  pub size_bytes : Option ℕ
  pub mime_type : Option Text

abbrev no_integrity : Integrity
no_integrity = record { checksum_sha256 = none; size_bytes = none; mime_type = none }

abbrev integrity_of : Asset → Integrity
integrity_of a = record {
  checksum_sha256 = a.checksum_sha256;
  size_bytes = some a.size_bytes;
  mime_type = some a.mime_type;
}

abbrev local_integrity : Option Asset → Integrity
local_integrity none = no_integrity
local_integrity (some a) = integrity_of a

abbrev binary_integrity : Option Asset → Result Integrity
binary_integrity none = err evidence_incomplete
binary_integrity (some a) =
    if is_checksum a.checksum_sha256 then ok (integrity_of a) else err evidence_incomplete

-- `resolveSourceIntegrityEvidence`, by the source.
unfoldable pub resolve_source_integrity_evidence : SourceType → Video → Result Integrity
unfolding is_sha256_hex
resolve_source_integrity_evidence local_file v = ok (local_integrity v.local_file_asset)
resolve_source_integrity_evidence db_blob v = binary_integrity v.binary_asset
resolve_source_integrity_evidence upload v = ok no_integrity
resolve_source_integrity_evidence direct_url v = ok no_integrity
resolve_source_integrity_evidence embed v = ok no_integrity

abbrev snapshot_of : Video → ℕ → Integrity → Snapshot
snapshot_of v now i = record {
  video_id = v.id;
  source_type = v.source_type;
  title = v.title;
  duration_seconds = v.duration_seconds;
  published_at = v.published_at;
  playback_url = v.playback_url;
  provider_asset_id = v.provider_asset_id;
  embed_provider = v.embed_provider;
  embed_url = v.embed_url;
  embed_public_id = v.embed_public_id;
  checksum_sha256 = i.checksum_sha256;
  size_bytes = i.size_bytes;
  mime_type = i.mime_type;
  snapshot_at = now;
}

unfoldable pub build_evidence_snapshot : Text → ℕ → Db → Result Snapshot
unfolding find_video resolve_source_integrity_evidence
build_evidence_snapshot video now db = do
  v ← found (find_video video db.videos) video_not_found
  i ← resolve_source_integrity_evidence v.source_type v
  pure (snapshot_of v now i)

abbrev is_blob : SourceType → Bool
is_blob db_blob = true
is_blob _ = false

abbrev stored_blob : Option Snapshot → Bool
stored_blob none = false
stored_blob (some s) = is_blob s.source_type

abbrev stored_checksum : Option Snapshot → Bool
stored_checksum none = false
stored_checksum (some s) = is_blob s.source_type && is_checksum s.checksum_sha256

-- `assertStoredEvidenceComplete`.
unfoldable pub is_stored_evidence_complete : Option Snapshot → SourceType → Bool
unfolding is_sha256_hex
is_stored_evidence_complete stored current =
    not (stored_blob stored && not (stored_checksum stored))
    && not (is_blob current && not (stored_checksum stored))

module _ (env : Env) where
  -- The time of a snapshot is no part of the identity.
  unfoldable pub compute_fingerprint : Snapshot → Text
  compute_fingerprint s = env.sha256_json (record s { snapshot_at = 0 })

  unfoldable pub compute_current_fingerprint : Canonical → Text → ℕ → Db → Result Text
  unfolding build_evidence_snapshot is_stored_evidence_complete compute_fingerprint
  compute_current_fingerprint c video now db = do
    current ← build_evidence_snapshot video now db
    _ ←
        check (is_stored_evidence_complete c.evidence_snapshot current.source_type)
          evidence_incomplete
    pure (compute_fingerprint current)
