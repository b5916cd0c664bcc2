-- ===== src/Grants/Media.antt =====
-- src/public/public-media-grant.service.ts: what a media grant is good for.
use bom_media_api.Common.{
  ℕ, ◌+◌, ◌/◌, ◌≤◌, ◌<◌, ◌≡◌, ◌↔◌, refl, ap, true, Option, none, some, [], if◌then◌else◌, length,
  Text, text_eq, text_eq_iff, text_eq_refl, units, arith,
}
use bom_media_api.Common.Numbers.{JsNumber, nat, neg, no_integer}
use bom_media_api.Grants.{
  Json, undefined, str, num, Node, MediaGrantPayload, Issue, Expected, encode_grant_payload,
  decode_grant_payload, get_ttl_seconds, expires_at_of, payload_of, is_expected, issue, verify,
}
use bom_media_api.Grants.Signature.{IsSigned, joined_grant, verify_grant_signature-eq-some_iff}

-- The properties of the JSON object of a payload.
unfoldable pub properties : MediaGrantPayload → Text → Json
unfolding text_eq
properties p key =
    (if text_eq key (units "v")
      then num (nat 1)
      else if text_eq key (units "sid")
      then str p.sid
      else if text_eq key (units "vid")
      then str p.vid
      else if text_eq key (units "host")
      then str p.host
      else if text_eq key (units "exp")
      then num (nat p.exp)
      else if text_eq key (units "purpose")
      then str (units "public_media")
      else undefined)

-- The number of seconds a grant lives for is between five minutes and a day.
get_ttl_seconds_bounds :
    (ttl : Option JsNumber) → (300 ≤ get_ttl_seconds ttl) × (get_ttl_seconds ttl ≤ 86_400)
unfolding get_ttl_seconds
get_ttl_seconds_bounds none = (omega arith, omega arith)
get_ttl_seconds_bounds (some no_integer) = (omega arith, omega arith)
get_ttl_seconds_bounds (some (neg n)) = (omega arith, omega arith)
get_ttl_seconds_bounds (some (nat n)) = (omega arith, omega arith)

expires_at_of-le :
    (ttl : Option JsNumber) (link_expiry : Option ℕ) (now : ℕ)
    → expires_at_of ttl link_expiry now ≤ now + 86_400_000
unfolding expires_at_of
expires_at_of-le ttl link_expiry now = omega (arith, (get_ttl_seconds_bounds ttl).1)

expires_at_of-le_link : (ttl : Option JsNumber) (t now : ℕ) → expires_at_of ttl (some t) now ≤ t
unfolding expires_at_of
expires_at_of-le_link ttl t now = omega arith

-- What a payload is checked for, once it is read back.
is_expected-properties :
    (e : Expected) (now : ℕ) (p : MediaGrantPayload)
    → p.exp ≤ 9_007_199_254_740_991
    → (is_expected e now (properties p) ≡ true) ↔ (
        (p.sid ≡ e.share_link_id) × (p.vid ≡ e.video_id) × (p.host ≡ e.host) × (now / 1000 ≤ p.exp))
unfolding properties text_eq
is_expected-properties e now p h = ground (
  arith,
  text_eq_iff p.sid e.share_link_id,
  text_eq_iff p.vid e.video_id,
  text_eq_iff p.host e.host,
)

module _ (node : Node) (secret : Text) where
  -- The payload of a grant that was just issued is read back from it.
  verify-encoded :
      (p : MediaGrantPayload) (e : Expected) (later : ℕ)
      → IsSigned node secret [] (encode_grant_payload node p)
      → length (joined_grant node secret [] (encode_grant_payload node p)) ≤ 2048
      → node.from_base64url (encode_grant_payload node p) ≡ node.stringify p
      → node.parse (node.stringify p) ≡ some (properties p)
      → verify node secret
          (some (joined_grant node secret [] (encode_grant_payload node p)))
          e
          later
        ≡ is_expected e later (properties p)
  unfolding verify decode_grant_payload encode_grant_payload
  verify-encoded p e later signed short back parsed = ground (
    arith,
    (verify_grant_signature-eq-some_iff node secret [] 2048
          (joined_grant node secret [] (encode_grant_payload node p))
          (encode_grant_payload node p)).1
        (refl, signed, short),
    back,
    parsed,
    ap node.to_base64url back,
    text_eq_refl (encode_grant_payload node p),
  )

  -- A media grant that was issued within the range of JavaScript dates is accepted for exactly the
  -- link, the video and the host that it was issued for, until the second in which it ends and no
  -- longer. This is so if its text has at most 2048 characters and a signature of 43, its payload
  -- and signature are base64url, and base64url and JSON give the payload back.
  pub verify-issue_iff :
      (ttl : Option JsNumber) (params : Issue) (now : ℕ) (e : Expected) (later : ℕ)
      → now ≤ 8_640_000_000_000_000
      → IsSigned node secret [] (encode_grant_payload node (payload_of ttl params now))
      → length (issue node secret ttl params now) ≤ 2048
      → node.from_base64url (encode_grant_payload node (payload_of ttl params now))
        ≡ node.stringify (payload_of ttl params now)
      → node.parse (node.stringify (payload_of ttl params now))
        ≡ some (properties (payload_of ttl params now))
      → (verify node secret (some (issue node secret ttl params now)) e later ≡ true) ↔ (
          (params.share_link_id ≡ e.share_link_id)
          × (params.video_id ≡ e.video_id)
          × (params.host ≡ e.host)
          × (later / 1000 ≤ expires_at_of ttl params.share_link_expires_at now / 1000))
  unfolding issue payload_of
  verify-issue_iff ttl params now e later range signed short back parsed = ground (
    arith,
    verify-encoded (payload_of ttl params now) e later signed short back parsed,
    is_expected-properties e later (payload_of ttl params now)
        (omega (arith, range, expires_at_of-le ttl params.share_link_expires_at now)),
  )

  -- Under the same conditions, a media grant for a link that expires is not accepted a second after
  -- the link has expired, nor a day and a second after the grant was issued.
  pub verify-issue_bounds :
      (ttl : Option JsNumber) (params : Issue) (now expiry : ℕ) (e : Expected) (later : ℕ)
      → now ≤ 8_640_000_000_000_000
      → IsSigned node secret [] (encode_grant_payload node (payload_of ttl params now))
      → length (issue node secret ttl params now) ≤ 2048
      → node.from_base64url (encode_grant_payload node (payload_of ttl params now))
        ≡ node.stringify (payload_of ttl params now)
      → node.parse (node.stringify (payload_of ttl params now))
        ≡ some (properties (payload_of ttl params now))
      → params.share_link_expires_at ≡ some expiry
      → verify node secret (some (issue node secret ttl params now)) e later ≡ true
      → (later < expiry + 1000) × (later < now + 86_401_000)
  verify-issue_bounds ttl params now expiry e later range signed short back parsed link accepted =
      (omega (arith, ends, by_link), omega (arith, ends, by_day))
    where
      ends : later / 1000 ≤ expires_at_of ttl params.share_link_expires_at now / 1000
      ends = ((verify-issue_iff ttl params now e later range signed short back parsed).0 accepted).3

      by_day : expires_at_of ttl params.share_link_expires_at now ≤ now + 86_400_000
      by_day = expires_at_of-le ttl params.share_link_expires_at now

      by_link : expires_at_of ttl params.share_link_expires_at now ≤ expiry
      by_link =
          ground
            (arith, ap (λ o. expires_at_of ttl o now) link, expires_at_of-le_link ttl expiry now)
