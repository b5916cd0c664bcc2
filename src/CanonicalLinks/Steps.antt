-- ===== src/CanonicalLinks/Steps.antt =====
-- What happens to canonical links over time: each transaction of
-- src/admin-websites/canonical-share-link.service.ts, and the other changes that the service makes to
-- the same tables, one after the other.
use bom_media_api.Common.{ℕ, List, [], ◌∷◌, if◌then◌else◌, Text, text_eq}
use bom_media_api.ShareLinks.{ShareLinkStatus}
use bom_media_api.CanonicalLinks.Tables.{Db, Link, Canonical, Website, Domain, Video, Assignment}
use bom_media_api.CanonicalLinks.Outcome.{Env}
use bom_media_api.CanonicalLinks.Reuse.{claim_transport_alias}
use bom_media_api.CanonicalLinks.Create.{Draw, create_tx, adopt_tx}

-- A link whose status is set, as by a revocation or by the disabling of a video.
unfoldable pub set_link_status : Text → ShareLinkStatus → List Link → List Link
set_link_status id status [] = []
set_link_status id status (l ∷ ls) =
    (if text_eq l.id id then record l { status = status } else l) ∷ set_link_status id status ls

-- A creation, an adoption that planned its row before, a claim of a transport alias, a change of a
-- link's status, and any change of websites, domains, videos and assignments.
pub data Step : Type 0 where
  creates : (website video admin pepper : Text) → Draw → (now : ℕ) → Step
  adopts : (website video admin : Text) → Canonical → Step
  claims : (link alias : Text) → Step
  sets_link_status : (link : Text) → ShareLinkStatus → Step
  edits : List Website → List Domain → List Video → List Assignment → Step

unfoldable pub step : Env → Db → Step → Db
unfolding create_tx adopt_tx claim_transport_alias set_link_status
step env db (creates website video admin pepper d now) =
    (create_tx env website video admin pepper d now db).0
step env db (adopts website video admin c) = (adopt_tx env website video admin c db).0
step env db (claims link alias) = (claim_transport_alias link alias db).0
step env db (sets_link_status link status) = record db {
  links = set_link_status link status db.links;
}
step env db (edits ws ds vs as') = record db {
  websites = ws;
  domains = ds;
  videos = vs;
  assignments = as';
}

unfoldable pub run : Env → Db → List Step → Db
unfolding step
run env db [] = db
run env db (s ∷ ss) = run env (step env db s) ss
