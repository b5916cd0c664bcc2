-- ===== src/CanonicalLinks/Servable.antt =====
-- src/admin-websites/canonical-share-link.service.ts and src/public/public.service.ts: a link that is
-- handed out as canonical is a link that visitors may open.
use bom_media_api.Common.{ℕ, Option}
use bom_media_api.ShareLinks.{ShareLink}
use bom_media_api.CanonicalLinks.Tables.{Link}
use bom_media_api.CanonicalLinks.Response.{Response}

-- The columns of a link that the public gate reads, with any count of views.
abbrev pub gate_link :
    Link → (current_views : ℕ) → (last_viewed_at : Option ℕ) → (updated_at : ℕ) → ShareLink
gate_link l views at_last stamp = record {
  id = l.id;
  website_id = l.website_id;
  status = l.status;
  expires_at = l.expires_at;
  max_views = l.max_views;
  current_views = views;
  last_viewed_at = at_last;
  updated_at = stamp;
  video_ids = l.video_ids;
}
