-- ===== src/ShareUrls/Tests.antt =====
-- The URLs of concrete links, with a JavaScript that takes each text as it is.
use bom_media_api.Common.{◌≡◌, ◌↔◌, refl, none, some, Text, true, units, text_eq, trim, starts_with}
use bom_media_api.ShareUrls.{
  Js, url, build_public_share_url, build_canonical_review_url, is_compatibility_capable_host,
  normalize_website_domain, split_commas,
}
use bom_media_api.ShareUrls.Fragment.{
  before_hash, build_public_share_url-before_hash, build_canonical_review_url-before_hash,
}
use bom_media_api.ShareUrls.Hosts.{Listed, is_compatibility_capable_host_iff}

abbrev js : Js
js = record { to_lower_case = λ s. s; url_host = λ s. some s; encode_uri_component = λ s. s }

urls : Unit {0}
unfolding build_public_share_url build_canonical_review_url is_compatibility_capable_host
    normalize_website_domain split_commas text_eq trim starts_with
urls = tt

abbrev watch : Text
watch = units "https://a.example/watch#k=one"

abbrev other_watch : Text
other_watch = units "https://a.example/watch#k=two"

written :
    build_public_share_url js (units " https://a.example/x ") (some (units "one")) none none
    ≡ url watch
unfolding urls
written = refl

build_public_share_url-before_hash_example : before_hash watch ≡ before_hash other_watch
unfolding urls
build_public_share_url-before_hash_example =
    build_public_share_url-before_hash js (units "a.example") none (some (units "one")) none none
      (some (units "two")) watch other_watch refl refl

build_canonical_review_url-before_hash_example : before_hash watch ≡ before_hash other_watch
unfolding urls
build_canonical_review_url-before_hash_example =
    build_canonical_review_url-before_hash js (units "a.example") (units "https") (units "one")
      (units "two") watch other_watch refl refl

allowed :
    is_compatibility_capable_host js
      (some (units "a.example"))
      (some (units "b.example, https://a.example/"))
    ≡ true
unfolding urls
allowed = refl

is_compatibility_capable_host_iff_example :
    (is_compatibility_capable_host js
        (some (units "a.example"))
        (some (units "b.example,a.example"))
      ≡ true)
    ↔ ((h : Text) × (normalize_website_domain js (units "a.example") ≡ some h)
        × Listed js h (split_commas (units "b.example,a.example")))
is_compatibility_capable_host_iff_example =
    is_compatibility_capable_host_iff js (units "a.example") (units "b.example,a.example")
