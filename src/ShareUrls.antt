-- ===== src/ShareUrls.antt =====
-- src/admin-websites/utils/share-url.util.ts and src/common/utils/domain.util.ts: the URLs under which
-- a share link is handed out, and the hosts that they may name.
pub mod Fragment
pub mod Hosts
pub mod Builds
pub mod Tests
use bom_media_api.Common.{
  ℕ, zero, suc, Bool, true, false, ◌&&◌, ◌||◌, not, Option, none, some, List, [], ◌∷◌, ◌++◌, ltb,
  leb, ◌==◌, if◌then◌else◌, any, length, all, Text, text_eq, units, is_empty, trim, is_space,
  starts_with,
}

-- What JavaScript gives: `toLowerCase`, the host of `new URL("http://" + host)` in lower case, or none
-- where the constructor throws, and `encodeURIComponent`.
pub record Js : Type 0 where
  pub to_lower_case : Text → Text
  pub url_host : Text → Option Text
  pub encode_uri_component : Text → Text

abbrev is_lower : ℕ → Bool
is_lower c = leb 97 c && leb c 122

-- `[a-z0-9+.-]`, on a text in lower case.
abbrev is_scheme_char : ℕ → Bool
is_scheme_char c = is_lower c || (leb 48 c && leb c 57) || c == 43 || c == 46 || c == 45

-- The rest behind `[a-z0-9+.-]*://` at the start, if that is there.
after_scheme : Text → Option Text
unfolding starts_with
after_scheme [] = none
after_scheme (c ∷ s) =
    let rest = after_scheme s in
    if is_scheme_char c
    then rest
    else if starts_with (c ∷ s) (units "://")
    then some (drop 2 s)
    else none
  where
    drop : ℕ → Text → Text
    drop zero s = s
    drop (suc n) [] = []
    drop (suc n) (c ∷ s) = drop n s

abbrev or_else : Option Text → Text → Text
or_else none s = s
or_else (some t) s = t

-- `replace(/^[a-z][a-z0-9+.-]*:\/\//i, "")`.
strip_scheme : Text → Text
unfolding after_scheme
strip_scheme [] = []
strip_scheme (c ∷ s) = if is_lower c then or_else (after_scheme s) (c ∷ s) else c ∷ s

-- `replace(/^\/+/, "")`.
strip_slashes : Text → Text
strip_slashes [] = []
strip_slashes (c ∷ s) = let rest = strip_slashes s in if c == 47 then rest else c ∷ s

-- `split(/[/?#]/)[0]`; what is left ends with no slash.
up_to_path : Text → Text
up_to_path [] = []
up_to_path (c ∷ s) =
    let rest = up_to_path s in if c == 47 || c == 63 || c == 35 then [] else c ∷ rest

-- `includes`.
unfoldable pub contains : Text → Text → Bool
unfolding starts_with
contains [] t = starts_with [] t
contains (c ∷ s) t = starts_with (c ∷ s) t || contains s t

-- `TRANSPORT_ALIAS_PATTERN`: 22 characters of base64url.
abbrev pub is_base64url_char : ℕ → Bool
is_base64url_char c =
    (leb 65 c && leb c 90)
    || (leb 97 c && leb c 122)
    || (leb 48 c && leb c 57)
    || c == 95
    || c == 45

unfoldable pub is_well_formed_transport_alias : Option Text → Bool
is_well_formed_transport_alias none = false
is_well_formed_transport_alias (some s) = length s == 22 && all is_base64url_char s

-- `split(",")`.
abbrev cons_head : ℕ → List Text → List Text
cons_head c [] = (c ∷ []) ∷ []
cons_head c (w ∷ ws) = (c ∷ w) ∷ ws

pub split_commas : Text → List Text
split_commas [] = [] ∷ []
split_commas (c ∷ s) = let rest = split_commas s in if c == 44 then [] ∷ rest else cons_head c rest

-- A `Set` of texts as the list of its members in the order of insertion.
abbrev pub includes : List Text → Text → Bool
includes ts t = any (λ x. text_eq x t) ts

abbrev pub add : List Text → Text → List Text
add ts t = if includes ts t then ts else ts ++ (t ∷ [])

pub data UrlError : Type 0 where
  domain_required domain_invalid credential_required transport_alias_invalid : UrlError

pub data Url : Type 0 where
  url : Text → Url
  bad : UrlError → Url

module _ (js : Js) where
  checked_host : Text → Option Text
  checked_host host =
      if is_empty host || ltb 253 (length host) || any is_space host then none else js.url_host host

  unfoldable pub normalize_website_domain : Text → Option Text
  unfolding checked_host trim strip_scheme strip_slashes up_to_path
  normalize_website_domain input =
      let trimmed = js.to_lower_case (trim input) in
      if is_empty trimmed
      then none
      else checked_host (up_to_path (strip_slashes (strip_scheme trimmed)))

  add_host : Text → List Text → List Text
  unfolding normalize_website_domain text_eq
  add_host entry hosts = elim (normalize_website_domain entry) [
    | none ↦ hosts
    | some host ↦ add hosts host
  ]

  add_hosts : List Text → List Text → List Text
  unfolding add_host
  add_hosts [] hosts = hosts
  add_hosts (entry ∷ entries) hosts = add_hosts entries (add_host entry hosts)

  unfoldable pub parse_compatibility_url_hosts : Option Text → List Text
  unfolding add_hosts split_commas
  parse_compatibility_url_hosts none = []
  parse_compatibility_url_hosts (some raw) = add_hosts (split_commas raw) []

  is_host_in : Option Text → List Text → Bool
  unfolding text_eq
  is_host_in none hosts = false
  is_host_in (some host) hosts = includes hosts host

  unfoldable pub is_compatibility_url_host : Option Text → List Text → Bool
  unfolding is_host_in normalize_website_domain
  is_compatibility_url_host none hosts = false
  is_compatibility_url_host (some host) hosts =
      if is_empty_list hosts then false else is_host_in (normalize_website_domain host) hosts
    where
      is_empty_list : List Text → Bool
      is_empty_list [] = true
      is_empty_list (_ ∷ _) = false

  unfoldable pub is_compatibility_capable_host : Option Text → Option Text → Bool
  unfolding is_compatibility_url_host parse_compatibility_url_hosts
  is_compatibility_capable_host host raw =
      is_compatibility_url_host host (parse_compatibility_url_hosts raw)

  protocol_of_host : Text → Text
  unfolding contains starts_with
  protocol_of_host domain =
      if starts_with domain (units "localhost")
        || starts_with domain (units "127.0.0.1")
        || starts_with domain (units "0.0.0.0")
        || contains domain (units ":5500")
      then units "http"
      else units "https"

  -- `resolvePublicSiteProtocol`.
  unfoldable pub resolve_public_site_protocol : Text → Option Text → Text
  unfolding protocol_of_host trim text_eq
  resolve_public_site_protocol domain none = protocol_of_host domain
  resolve_public_site_protocol domain (some configured) =
      let p = js.to_lower_case (trim configured) in
      if text_eq p (units "http") || text_eq p (units "https") then p else protocol_of_host domain

  unfoldable pub build_clean_public_share_url : Text → Text → Text → Text
  build_clean_public_share_url protocol domain credential =
      protocol
      ++ (units "://" ++ (domain ++ (units "/watch#k=" ++ js.encode_uri_component credential)))

  clean_url : Text → Option Text → Text → Url
  unfolding resolve_public_site_protocol build_clean_public_share_url
  clean_url domain protocol credential = url (
      build_clean_public_share_url (resolve_public_site_protocol domain protocol) domain credential)

  abbrev trimmed_or_empty : Option Text → Text
  trimmed_or_empty none = []
  trimmed_or_empty (some s) = trim s

  -- `buildPublicShareUrl`: the alias, or else the token.
  unfoldable pub build_public_share_url :
      Text → (alias : Option Text) → (token : Option Text) → (protocol : Option Text) → Url
  unfolding normalize_website_domain clean_url trim
  build_public_share_url domain alias token protocol =
      if is_empty (trim domain)
      then bad domain_required
      else elim (normalize_website_domain (trim domain)) [
        | none ↦ bad domain_invalid
        | some host ↦
            if not (is_empty (trimmed_or_empty alias))
            then clean_url host protocol (trimmed_or_empty alias)
            else if is_empty (trimmed_or_empty token)
            then bad credential_required
            else clean_url host protocol (trimmed_or_empty token)
      ]

  unfoldable pub build_canonical_public_share_url : Text → Text → Text → Url
  unfolding normalize_website_domain resolve_public_site_protocol trim
  build_canonical_public_share_url host alias protocol =
      elim (normalize_website_domain (trim host)) [
        | none ↦ bad domain_invalid
        | some h ↦
            if is_empty (trim alias)
            then bad credential_required
            else url (
                resolve_public_site_protocol h (some protocol)
                ++ (units "://"
                    ++ (h
                        ++ (units "/#/s/"
                            ++ (js.encode_uri_component (trim alias) ++ units "/videos")))))
      ]

  unfoldable pub build_canonical_review_url : Text → Text → Text → Url
  unfolding normalize_website_domain clean_url trim
  build_canonical_review_url host alias protocol = elim (normalize_website_domain (trim host)) [
    | none ↦ bad domain_invalid
    | some h ↦
        if is_empty (trim alias)
        then bad credential_required
        else clean_url h (some protocol) (trim alias)
  ]

  unfoldable pub build_canonical_compatibility_url : Text → Text → Text → Url
  unfolding normalize_website_domain resolve_public_site_protocol is_well_formed_transport_alias
      trim
  build_canonical_compatibility_url host transport_alias protocol =
      elim (normalize_website_domain (trim host)) [
        | none ↦ bad domain_invalid
        | some h ↦
            if is_well_formed_transport_alias (some transport_alias)
            then url (
                resolve_public_site_protocol h (some protocol)
                ++ (units "://" ++ (h ++ (units "/watch?r=" ++ transport_alias))))
            else bad transport_alias_invalid
      ]
