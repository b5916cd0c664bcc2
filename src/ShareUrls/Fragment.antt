-- ===== src/ShareUrls/Fragment.antt =====
-- src/admin-websites/utils/share-url.util.ts: the credential of a share URL stands in its fragment,
-- which browsers do not send.
use bom_media_api.Common.{
  ◌≡◌, inl, inr, refl, ap, sym, ◌∙◌, Bool, true, Option, none, some, [], ◌∷◌, ◌++◌, ◌==◌,
  if◌then◌else◌, any, arith, Text, units, trim, Option-cases,
}
use bom_media_api.ShareUrls.{
  Js, Url, url, bad, normalize_website_domain, resolve_public_site_protocol,
  build_clean_public_share_url, clean_url, trimmed_or_empty, build_public_share_url,
  build_canonical_review_url,
}

-- What stands before the first `#`, all of it if there is none.
pub before_hash : Text → Text
before_hash [] = []
before_hash (c ∷ s) = let rest = before_hash s in if c == 35 then [] else c ∷ rest

abbrev has_hash : Text → Bool
has_hash s = any (λ c. c == 35) s

has_hash-append : (s t : Text) → has_hash t ≡ true → has_hash (s ++ t) ≡ true
has_hash-append [] t h = h
has_hash-append (c ∷ s) t h = ground (arith, has_hash-append s t)

before_hash-append : (s t : Text) → has_hash s ≡ true → before_hash (s ++ t) ≡ before_hash s
unfolding before_hash
before_hash-append [] t h = cc
before_hash-append (c ∷ s) t h = ground (arith, before_hash-append s t)

append_assoc : (s t u : Text) → (s ++ t) ++ u ≡ s ++ (t ++ u)
append_assoc [] t u = refl
append_assoc (c ∷ s) t u = ap (λ x. c ∷ x) (append_assoc s t u)

module _ (js : Js) where
  -- A URL up to its credential.
  abbrev open_part : Text → Text → Text
  open_part protocol domain = protocol ++ (units "://" ++ (domain ++ units "/watch#k="))

  has_hash-open_part : (protocol domain : Text) → has_hash (open_part protocol domain) ≡ true
  has_hash-open_part protocol domain =
      has_hash-append protocol (units "://" ++ (domain ++ units "/watch#k="))
        (has_hash-append domain (units "/watch#k=") refl)

  build_clean-open_part :
      (protocol domain credential : Text)
      → build_clean_public_share_url js protocol domain credential
        ≡ open_part protocol domain ++ js.encode_uri_component credential
  unfolding build_clean_public_share_url
  build_clean-open_part protocol domain credential = sym (
      append_assoc protocol (units "://" ++ (domain ++ units "/watch#k=")) c
      ∙ ap (λ x. protocol ++ (units "://" ++ x)) (append_assoc domain (units "/watch#k=") c))
    where
      c : Text
      c = js.encode_uri_component credential

  before_hash-build_clean :
      (protocol domain credential : Text)
      → before_hash (build_clean_public_share_url js protocol domain credential)
        ≡ before_hash (open_part protocol domain)
  before_hash-build_clean protocol domain credential =
      ap before_hash (build_clean-open_part protocol domain credential)
      ∙ before_hash-append (open_part protocol domain) (js.encode_uri_component credential)
          (has_hash-open_part protocol domain)

  -- The part of a URL before `#`, if it was built.
  abbrev open_of : Url → Option Text
  open_of (url u) = some (before_hash u)
  open_of (bad _) = none

  clean_url-open :
      (domain : Text) (protocol : Option Text) (credential : Text)
      → open_of (clean_url js domain protocol credential)
        ≡ some (before_hash (open_part (resolve_public_site_protocol js domain protocol) domain))
  unfolding clean_url
  clean_url-open domain protocol credential =
      ap some (
        before_hash-build_clean (resolve_public_site_protocol js domain protocol) domain credential)

  -- Two review URLs of one host and protocol are the same up to `#`, whatever their aliases.
  pub build_canonical_review_url-before_hash :
      (host protocol alias other u v : Text)
      → build_canonical_review_url js host alias protocol ≡ url u
      → build_canonical_review_url js host other protocol ≡ url v
      → before_hash u ≡ before_hash v
  unfolding build_canonical_review_url
  build_canonical_review_url-before_hash host protocol alias other u v e f =
      elim (Option-cases (normalize_website_domain js (trim host))) [
        | inl n ↦ ground (arith, n)
        | inr (h, n) ↦ ground (
          arith,
          n,
          clean_url-open h (some protocol) (trim alias),
          clean_url-open h (some protocol) (trim other),
          ap open_of e,
          ap open_of f,
        )
      ]

  -- Two share URLs of one domain and protocol are the same up to `#`, whatever the aliases and
  -- tokens they carry.
  pub build_public_share_url-before_hash :
      (domain : Text) (protocol alias other token token' : Option Text) (u v : Text)
      → build_public_share_url js domain alias token protocol ≡ url u
      → build_public_share_url js domain other token' protocol ≡ url v
      → before_hash u ≡ before_hash v
  unfolding build_public_share_url
  build_public_share_url-before_hash domain protocol alias other token token' u v e f =
      elim (Option-cases (normalize_website_domain js (trim domain))) [
        | inl n ↦ ground (arith, n)
        | inr (h, n) ↦ ground (
          arith,
          n,
          clean_url-open h protocol (trimmed_or_empty js alias),
          clean_url-open h protocol (trimmed_or_empty js other),
          clean_url-open h protocol (trimmed_or_empty js token),
          clean_url-open h protocol (trimmed_or_empty js token'),
          ap open_of e,
          ap open_of f,
        )
      ]
