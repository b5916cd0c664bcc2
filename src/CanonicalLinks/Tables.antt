-- ===== src/CanonicalLinks/Tables.antt =====
-- The tables of prisma/schema.prisma that src/admin-websites/canonical-share-link.service.ts works on,
-- and its look-ups. Times are milliseconds. A link holds the ids of its videos in their order, the
-- rows of ShareLinkVideo.
use bom_media_api.Common.{
  ℕ, Bool, true, false, ◌&&◌, ◌||◌, not, Option, none, some, List, [], ◌∷◌, ltb, if◌then◌else◌,
  Text, text_eq, units, is_empty, trim, starts_with,
}
use bom_media_api.ShareLinks.{ShareLinkStatus, VideoStatus}
use bom_media_api.Canonical.{AnchoredPair, Candidate}

pub record Website : Type 0 where
  pub id : Text
  pub is_active : Bool

pub record Domain : Type 0 where
  pub id : Text
  pub website_id : Option Text
  pub domain : Text
  pub is_primary : Bool
  pub is_active : Bool
  pub created_at : ℕ

pub data SourceType : Type 0 where
  upload direct_url embed db_blob local_file : SourceType

-- The columns of a VideoBinaryAsset or a VideoLocalFileAsset that are read.
pub record Asset : Type 0 where
  pub checksum_sha256 : Option Text
  pub size_bytes : ℕ
  pub mime_type : Text

pub record Video : Type 0 where
  pub id : Text
  pub status : VideoStatus
  pub source_type : SourceType
  pub title : Text
  pub duration_seconds : Option ℕ
  pub published_at : Option ℕ
  pub playback_url : Option Text
  pub provider_asset_id : Option Text
  pub embed_provider : Option Text
  pub embed_url : Option Text
  pub embed_public_id : Option Text
  pub local_file_asset : Option Asset
  pub binary_asset : Option Asset

-- A WebsiteVideo.
pub record Assignment : Type 0 where
  pub website_id : Text
  pub video_id : Text
  pub is_active : Bool

pub record Link : Type 0 where
  pub id : Text
  pub website_id : Text
  pub token_hash : Text
  pub alias : Option Text
  pub transport_alias : Option Text
  pub expires_at : Option ℕ
  pub max_views : Option ℕ
  pub status : ShareLinkStatus
  pub created_at : ℕ
  pub video_ids : List Text

-- What is known of a video's identity.
pub record Snapshot : Type 0 where
  pub video_id : Text
  pub source_type : SourceType
  pub title : Text
  pub duration_seconds : Option ℕ
  pub published_at : Option ℕ
  pub playback_url : Option Text
  pub provider_asset_id : Option Text
  pub embed_provider : Option Text
  pub embed_url : Option Text
  pub embed_public_id : Option Text
  pub checksum_sha256 : Option Text
  pub size_bytes : Option ℕ
  pub mime_type : Option Text
  pub snapshot_at : ℕ

-- A CanonicalVideoShareLink; its stored snapshot is an object, or none.
pub record Canonical : Type 0 where
  pub id : Text
  pub website_id : Text
  pub video_id : Text
  pub share_link_id : Text
  pub canonical_domain_id : Text
  pub canonical_host_snapshot : Text
  pub canonical_protocol : Text
  pub evidence_fingerprint : Option Text
  pub evidence_snapshot : Option Snapshot

pub data Action : Type 0 where
  create auto_adopt operator_adopt transport_alias_backfill : Action

pub record Audit : Type 0 where
  pub admin_id : Text
  pub action : Action
  pub entity_id : Text

pub record Db : Type 0 where
  pub websites : List Website
  pub domains : List Domain
  pub videos : List Video
  pub assignments : List Assignment
  pub links : List Link
  pub canonicals : List Canonical
  pub audits : List Audit

unfoldable pub is_active_website : Text → List Website → Bool
is_active_website id [] = false
is_active_website id (w ∷ ws) = (text_eq w.id id && w.is_active) || is_active_website id ws

unfoldable pub find_domain : Text → List Domain → Option Domain
find_domain id [] = none
find_domain id (d ∷ ds) = if text_eq d.id id then some d else find_domain id ds

unfoldable pub find_video : Text → List Video → Option Video
find_video id [] = none
find_video id (v ∷ vs) = if text_eq v.id id then some v else find_video id vs

unfoldable pub find_assignment : Text → Text → List Assignment → Option Assignment
find_assignment website video [] = none
find_assignment website video (a ∷ as') =
    if text_eq a.website_id website && text_eq a.video_id video
    then some a
    else find_assignment website video as'

unfoldable pub find_link : Text → List Link → Option Link
find_link id [] = none
find_link id (l ∷ ls) = if text_eq l.id id then some l else find_link id ls

-- `websiteId_videoId`.
abbrev pub is_pair : Text → Text → Canonical → Bool
is_pair website video c = text_eq c.website_id website && text_eq c.video_id video

unfoldable pub find_canonical : Text → Text → List Canonical → Option Canonical
find_canonical website video [] = none
find_canonical website video (c ∷ cs) =
    if is_pair website video c then some c else find_canonical website video cs

-- The canonical mapping that a link anchors.
unfoldable pub find_anchored : Text → List Canonical → Option Canonical
find_anchored link [] = none
find_anchored link (c ∷ cs) = if text_eq c.share_link_id link then some c else find_anchored link cs

-- `orderBy: [{ isPrimary: "desc" }, { createdAt: "asc" }]`: whether the first comes before the second.
abbrev is_before : Domain → Domain → Bool
is_before d e =
    (d.is_primary && not e.is_primary)
    || (not (e.is_primary && not d.is_primary) && ltb d.created_at e.created_at)

abbrev first_of : Domain → Option Domain → Option Domain
first_of d none = some d
first_of d (some e) = if is_before e d then some e else some d

abbrev is_of : Option Text → Text → Bool
is_of none id = false
is_of (some w) id = text_eq w id

-- The preferred ACTIVE domain of a website.
unfoldable pub find_active_domain : Text → List Domain → Option Domain
unfolding text_eq
find_active_domain website [] = none
find_active_domain website (d ∷ ds) =
    let rest = find_active_domain website ds in
    if is_of d.website_id website && d.is_active then first_of d rest else rest

abbrev is_filled : Option Text → Bool
is_filled none = false
is_filled (some s) = not (is_empty (trim s))

abbrev is_video_file : Option Asset → Bool
is_video_file none = false
is_video_file (some a) = starts_with a.mime_type (units "video/") && ltb 0 a.size_bytes

abbrev pub is_ready : VideoStatus → Bool
is_ready VideoStatus.ready = true
is_ready _ = false

is_playable_source : SourceType → Video → Bool
unfolding trim starts_with
is_playable_source upload v = is_filled v.playback_url
is_playable_source direct_url v = is_filled v.playback_url
is_playable_source embed v = is_filled v.embed_url
is_playable_source db_blob v = is_video_file v.binary_asset
is_playable_source local_file v = is_video_file v.local_file_asset

-- `isPublicPlayableVideo`.
unfoldable pub is_public_playable_video : Video → Bool
unfolding is_playable_source
is_public_playable_video v = is_ready v.status && is_playable_source v.source_type v

abbrev is_active_assignment : Option Assignment → Bool
is_active_assignment none = false
is_active_assignment (some a) = a.is_active

abbrev is_playable_found : Option Video → Bool
is_playable_found none = false
is_playable_found (some v) = is_public_playable_video v

-- `validateShareLinkVideoEligibility` for one video: whether it does not throw.
unfoldable pub is_eligible : Text → Text → Db → Bool
unfolding is_public_playable_video find_video find_assignment
is_eligible website video db =
    is_playable_found (find_video video db.videos)
    && is_active_assignment (find_assignment website video db.assignments)

abbrev pub pair_of : Option Canonical → Option AnchoredPair
pair_of none = none
pair_of (some c) = some (record { website_id = c.website_id; video_id = c.video_id })

abbrev pub is_only : Text → List Text → Bool
is_only video (v ∷ []) = text_eq v video
is_only video _ = false

-- `findExactSingleVideoCandidates`: the links of the website that hold exactly this video.
unfoldable pub find_exact_single_video_candidates :
    Text → Text → List Canonical → List Link → List Candidate
unfolding find_anchored text_eq
find_exact_single_video_candidates website video cs [] = []
find_exact_single_video_candidates website video cs (l ∷ ls) =
    let rest = find_exact_single_video_candidates website video cs ls in
    if text_eq l.website_id website && is_only video l.video_ids
    then record {
      id = l.id;
      alias = l.alias;
      status = l.status;
      expires_at = l.expires_at;
      max_views = l.max_views;
      created_at = l.created_at;
      anchored_pair = pair_of (find_anchored l.id cs);
    }
      ∷ rest
    else rest
