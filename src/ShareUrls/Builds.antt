-- ===== src/ShareUrls/Builds.antt =====
-- src/admin-websites/utils/share-url.util.ts: the builders do build a URL.
use bom_media_api.Common.{◌≡◌, true, false, some, arith, Text, ◌++◌, units, is_empty, trim}
use bom_media_api.ShareUrls.{
  Js, url, normalize_website_domain, clean_url, build_clean_public_share_url,
  resolve_public_site_protocol, is_well_formed_transport_alias, build_canonical_public_share_url,
  build_canonical_review_url, build_canonical_compatibility_url,
}

module _ (js : Js) (host h protocol : Text)
    (named : normalize_website_domain js (trim host) ≡ some h) where
  pub build_canonical_public_share_url-eq-url :
      (alias : Text)
      → is_empty (trim alias) ≡ false
      → (u : Text) × (build_canonical_public_share_url js host alias protocol ≡ url u)
  unfolding build_canonical_public_share_url
  build_canonical_public_share_url-eq-url alias a = (
    resolve_public_site_protocol js h (some protocol)
        ++ (units "://"
            ++ (h ++ (units "/#/s/" ++ (js.encode_uri_component (trim alias) ++ units "/videos")))),
    ground (arith, named, a),
  )

  pub build_canonical_review_url-eq-url :
      (alias : Text)
      → is_empty (trim alias) ≡ false
      → (u : Text) × (build_canonical_review_url js host alias protocol ≡ url u)
  unfolding build_canonical_review_url clean_url
  build_canonical_review_url-eq-url alias a = (
    build_clean_public_share_url js (resolve_public_site_protocol js h (some protocol)) h
        (trim alias),
    ground (arith, named, a),
  )

  pub build_canonical_compatibility_url-eq-url :
      (alias : Text)
      → is_well_formed_transport_alias (some alias) ≡ true
      → (u : Text) × (build_canonical_compatibility_url js host alias protocol ≡ url u)
  unfolding build_canonical_compatibility_url
  build_canonical_compatibility_url-eq-url alias w = (
    resolve_public_site_protocol js h (some protocol)
        ++ (units "://" ++ (h ++ (units "/watch?r=" ++ alias))),
    ground (arith, named, w),
  )
