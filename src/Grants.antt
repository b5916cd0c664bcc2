-- ===== src/Grants.antt =====
-- src/public/utils/grant-signature.util.ts and src/public/public-media-grant.service.ts: grants that
-- are signed with an HMAC, and the grant that lets a visitor fetch the media of a video.
pub mod Signature
pub mod FixedWidth
pub mod Media
pub mod Tests
use bom_media_api.Common.{
  ℕ, zero, suc, ◌+◌, ◌-◌, ◌*◌, ◌/◌, Bool, true, false, ◌&&◌, ◌||◌, not, min, max, Option, none,
  some, List, [], ◌∷◌, ◌++◌, ltb, leb, ◌==◌, if◌then◌else◌, all, length, Text, text_eq, units,
  is_empty, slice_to,
}
use bom_media_api.Common.Numbers.{JsNumber, nat, neg, no_integer}

-- A value that `JSON.parse` gives for a property.
pub data Json : Type 0 where
  undefined other : Json
  str : Text → Json
  num : JsNumber → Json

pub record MediaGrantPayload : Type 0 where
  pub sid : Text
  pub vid : Text
  pub host : Text
  pub exp : ℕ

-- What Node.js gives: the HMAC-SHA256 of a text under a secret, in base64url; base64url of bytes, and
-- its lenient decoder; JSON of a payload in UTF-8, and its parser, which gives the properties of the
-- value, or none if it throws or the value is null.
pub record Node : Type 0 where
  pub hmac : Text → Text → Text
  pub to_base64url : List ℕ → Text
  pub from_base64url : Text → List ℕ
  pub stringify : MediaGrantPayload → List ℕ
  pub parse : List ℕ → Option (Text → Json)

-- The alphabet of base64url.
abbrev pub is_base64url_char : ℕ → Bool
is_base64url_char c =
    (leb 65 c && leb c 90)
    || (leb 97 c && leb c 122)
    || (leb 48 c && leb c 57)
    || c == 95
    || c == 45

-- `BASE64URL_PATTERN.test`.
abbrev pub is_base64url : Text → Bool
is_base64url s = not (is_empty s) && all is_base64url_char s

abbrev pub sha256_base64url_length : ℕ
sha256_base64url_length = 43

-- `slice(n)`.
pub slice_from : ℕ → Text → Text
slice_from zero s = s
slice_from (suc n) [] = []
slice_from (suc n) (c ∷ s) = slice_from n s

-- `splitFixedWidthGrant`.
pub split_fixed_width_grant : Text → Option (Text × Text)
unfolding slice_to slice_from
split_fixed_width_grant value =
    (if leb (length value) sha256_base64url_length || not (is_base64url value)
      then none
      else some (
        slice_to (length value - sha256_base64url_length) value,
        slice_from (length value - sha256_base64url_length) value,
      ))

-- What is signed: the payload after its domain and a dot, or alone if the domain is empty.
pub mac_input : Text → Text → Text
mac_input [] payload = payload
mac_input (c ∷ domain) payload = (c ∷ domain) ++ (46 ∷ payload)

-- The comparison of two ASCII texts as buffers.
abbrev pub same_buffer : Text → Text → Bool
same_buffer a b = length a == length b && text_eq a b

-- `split(".")`.
abbrev cons_head : ℕ → List Text → List Text
cons_head c [] = (c ∷ []) ∷ []
cons_head c (w ∷ ws) = (c ∷ w) ∷ ws

pub split_dots : Text → List Text
split_dots [] = [] ∷ []
split_dots (c ∷ s) = let rest = split_dots s in if c == 46 then [] ∷ rest else cons_head c rest

module _ (node : Node) where
  pub sign_grant_payload : Text → Text → Text → Text
  unfolding mac_input
  sign_grant_payload secret domain payload = node.hmac secret (mac_input domain payload)

  pub verify_fixed_width_grant_signature : Text → Text → Text → Option Text
  unfolding split_fixed_width_grant sign_grant_payload text_eq
  verify_fixed_width_grant_signature secret domain value = elim (split_fixed_width_grant value) [
    | none ↦ none
    | some (payload, signature) ↦
        if same_buffer signature (sign_grant_payload secret domain payload)
        then some payload
        else none
  ]

  -- The parts of a grant: a payload and a signature, and nothing else.
  abbrev pub check_parts : Text → Text → List Text → Option Text
  check_parts secret domain (payload ∷ signature ∷ []) =
      (if is_base64url payload
          && is_base64url signature
          && length signature == sha256_base64url_length
          && same_buffer signature (sign_grant_payload secret domain payload)
        then some payload
        else none)
  check_parts secret domain _ = none

  pub verify_grant_signature : Text → Text → ℕ → Option Text → Option Text
  unfolding split_dots sign_grant_payload text_eq
  verify_grant_signature secret domain max_length none = none
  verify_grant_signature secret domain max_length (some grant) =
      (if is_empty grant || ltb max_length (length grant)
        then none
        else check_parts secret domain (split_dots grant))

  pub encode_grant_payload : MediaGrantPayload → Text
  encode_grant_payload payload = node.to_base64url (node.stringify payload)

  pub decode_grant_payload : Text → Option (Text → Json)
  unfolding text_eq
  decode_grant_payload encoded =
      let decoded = node.from_base64url encoded in
      if text_eq (node.to_base64url decoded) encoded then node.parse decoded else none

-- `getTtlSeconds`, from the number that is configured, or the default of six hours.
pub get_ttl_seconds : Option JsNumber → ℕ
get_ttl_seconds none = 21_600
get_ttl_seconds (some no_integer) = 21_600
get_ttl_seconds (some (neg n)) = 300
get_ttl_seconds (some (nat n)) = min (max n 300) 86_400

pub record Issue : Type 0 where
  pub share_link_id : Text
  pub video_id : Text
  pub host : Text
  pub share_link_expires_at : Option ℕ

abbrev or_max_safe : Option ℕ → ℕ
or_max_safe none = 9_007_199_254_740_991
or_max_safe (some t) = t

-- The time, in milliseconds, at which a grant ends.
pub expires_at_of : Option JsNumber → Option ℕ → ℕ → ℕ
unfolding get_ttl_seconds
expires_at_of ttl link_expiry now = min (now + get_ttl_seconds ttl * 1000) (or_max_safe link_expiry)

pub payload_of : Option JsNumber → Issue → ℕ → MediaGrantPayload
unfolding expires_at_of
payload_of ttl params now = record {
  sid = params.share_link_id;
  vid = params.video_id;
  host = params.host;
  exp = expires_at_of ttl params.share_link_expires_at now / 1000;
}

-- What `verify` expects.
pub record Expected : Type 0 where
  pub share_link_id : Text
  pub video_id : Text
  pub host : Text

abbrev is_text : Text → Json → Bool
is_text s (str t) = text_eq t s
is_text s _ = false

abbrev is_one : Json → Bool
is_one (num (nat n)) = n == 1
is_one _ = false

-- A safe integer that is at least the given time.
abbrev is_from : ℕ → Json → Bool
is_from now (num (nat n)) = leb n 9_007_199_254_740_991 && leb now n
is_from now _ = false

abbrev pub is_expected : Expected → ℕ → (Text → Json) → Bool
is_expected e now p =
    is_one (p (units "v"))
    && is_text (units "public_media") (p (units "purpose"))
    && is_text e.share_link_id (p (units "sid"))
    && is_text e.video_id (p (units "vid"))
    && is_text e.host (p (units "host"))
    && is_from (now / 1000) (p (units "exp"))

module _ (node : Node) (secret : Text) where
  pub issue : Option JsNumber → Issue → ℕ → Text
  unfolding payload_of encode_grant_payload sign_grant_payload
  issue ttl params now =
      let payload = encode_grant_payload node (payload_of ttl params now) in
      payload ++ (46 ∷ sign_grant_payload node secret [] payload)

  pub verify : Option Text → Expected → ℕ → Bool
  unfolding verify_grant_signature decode_grant_payload text_eq
  verify grant expected now = elim (verify_grant_signature node secret [] 2048 grant) [
    | none ↦ false
    | some encoded ↦ elim (decode_grant_payload node encoded) [
      | none ↦ false
      | some p ↦ is_expected expected now p
    ]
  ]
