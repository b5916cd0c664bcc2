-- ===== src/Grants/Tests.antt =====
-- Grants under a toy of Node.js, and an example of each property.
use bom_media_api.Common.{
  ◌+◌, ◌/◌, ◌≤◌, ◌<◌, ◌≡◌, ◌↔◌, refl, true, false, some, [], ◌∷◌, ◌++◌, if◌then◌else◌, ltb, length,
  Text, text_eq, units, is_empty, slice_to, arith,
}
use bom_media_api.Common.Numbers.{nat}
use bom_media_api.Grants.{
  Node, Issue, Expected, is_base64url, slice_from, split_fixed_width_grant, mac_input, split_dots,
  sign_grant_payload, verify_fixed_width_grant_signature, verify_grant_signature,
  encode_grant_payload, decode_grant_payload, get_ttl_seconds, expires_at_of, payload_of, issue,
  verify,
}
use bom_media_api.Grants.Signature.{
  IsSigned, joined_grant, verify_grant_signature-eq-some_iff, mac_input_injective,
}
use bom_media_api.Grants.FixedWidth.{verify_fixed_width_grant_signature-eq-some_iff}
use bom_media_api.Grants.Media.{properties, verify-issue_iff, verify-issue_bounds}

-- The signature is 42 letters behind one that tells long inputs from short ones; the JSON of a
-- payload is its link's id, and its base64url the same text.
abbrev toy : Node
toy = record {
  hmac = λ secret input.
      (if ltb 8 (length input) then 66 else 65)
      ∷ units "abcdefghijklmnopqrstuvwxyzabcdefghijklmnop";
  to_base64url = λ b. b;
  from_base64url = λ t. t;
  stringify = λ p. p.sid;
  parse = λ b. some (properties (record { sid = b; vid = units "v"; host = units "h"; exp = 400 }));
}

abbrev asked : Issue
asked = record {
  share_link_id = units "l1";
  video_id = units "v";
  host = units "h";
  share_link_expires_at = some 400_000;
}

abbrev hoped : Expected
hoped = record { share_link_id = units "l1"; video_id = units "v"; host = units "h" }

abbrev grant : Text
grant = units "l1.Aabcdefghijklmnopqrstuvwxyzabcdefghijklmnop"

grants : Unit {0}
unfolding text_eq slice_to slice_from split_fixed_width_grant mac_input split_dots
    sign_grant_payload verify_fixed_width_grant_signature verify_grant_signature
    encode_grant_payload decode_grant_payload get_ttl_seconds expires_at_of payload_of issue verify
    properties
grants = tt

issued : issue toy (units "k") (some (nat 300)) asked 200_000 ≡ grant
unfolding grants
issued = refl

accepted_in_time : verify toy (units "k") (some grant) hoped 400_999 ≡ true
unfolding grants
accepted_in_time = refl

refused_later : verify toy (units "k") (some grant) hoped 401_000 ≡ false
unfolding grants
refused_later = refl

verify_grant_signature-eq-some_iff_example :
    (verify_grant_signature toy (units "k") [] 2048 (some grant) ≡ some (units "l1")) ↔ (
      (grant ≡ joined_grant toy (units "k") [] (units "l1"))
      × IsSigned toy (units "k") [] (units "l1")
      × (length grant ≤ 2048))
verify_grant_signature-eq-some_iff_example =
    verify_grant_signature-eq-some_iff toy (units "k") [] 2048 grant (units "l1")

mac_input_injective_example : (units "a.b" ≡ units "a.b") × (units "c" ≡ units "c")
mac_input_injective_example =
    mac_input_injective (units "a.b") (units "a.b") (units "c") (units "c") refl refl refl

verify_fixed_width_grant_signature-eq-some_iff_example :
    (verify_fixed_width_grant_signature toy
        (units "k")
        []
        (units "rmv1Aabcdefghijklmnopqrstuvwxyzabcdefghijklmnop")
      ≡ some (units "rmv1"))
    ↔ ((units "rmv1Aabcdefghijklmnopqrstuvwxyzabcdefghijklmnop"
          ≡ units "rmv1" ++ sign_grant_payload toy (units "k") [] (units "rmv1"))
        × (length (sign_grant_payload toy (units "k") [] (units "rmv1")) ≡ 43)
        × (is_empty (units "rmv1") ≡ false)
        × (is_base64url (units "rmv1Aabcdefghijklmnopqrstuvwxyzabcdefghijklmnop") ≡ true))
verify_fixed_width_grant_signature-eq-some_iff_example =
    verify_fixed_width_grant_signature-eq-some_iff toy (units "k") []
      (units "rmv1Aabcdefghijklmnopqrstuvwxyzabcdefghijklmnop") (units "rmv1")

verify-issue_iff_example :
    (verify toy
        (units "k")
        (some (issue toy (units "k") (some (nat 300)) asked 200_000))
        hoped
        400_999
      ≡ true)
    ↔ ((asked.share_link_id ≡ hoped.share_link_id)
        × (asked.video_id ≡ hoped.video_id)
        × (asked.host ≡ hoped.host)
        × (400_999 / 1000
            ≤ expires_at_of (some (nat 300)) asked.share_link_expires_at 200_000 / 1000))
unfolding grants
verify-issue_iff_example =
    verify-issue_iff toy (units "k") (some (nat 300)) asked 200_000 hoped 400_999 (omega arith)
      (refl, refl, refl) (omega arith) refl refl

verify-issue_bounds_example : (400_999 < 400_000 + 1000) × (400_999 < 200_000 + 86_401_000)
unfolding grants
verify-issue_bounds_example =
    verify-issue_bounds toy (units "k") (some (nat 300)) asked 200_000 400_000 hoped 400_999
      (omega arith) (refl, refl, refl) (omega arith) refl refl refl refl
