-- ===== src/Grants/Signature.antt =====
-- src/public/utils/grant-signature.util.ts: which texts are grants, and what their signatures bind.
use bom_media_api.Common.{
  ℕ, ◌≤◌, ◌≡◌, ◌↔◌, refl, ap, Bool, true, false, ◌&&◌, some, List, [], ◌∷◌, ◌++◌, all, length, Text,
  text_eq_iff, text_eq_refl, is_empty, arith,
}
use bom_media_api.Grants.{
  Node, is_base64url_char, is_base64url, mac_input, split_dots, cons_head, sign_grant_payload,
  check_parts, verify_grant_signature,
}

-- A base64url text holds no dot.
split_dots-all : (s : Text) → all is_base64url_char s ≡ true → split_dots s ≡ s ∷ []
unfolding split_dots
split_dots-all [] h = refl
split_dots-all (c ∷ s) h = ground (arith, split_dots-all s)

split_dots-append :
    (s t : Text) → all is_base64url_char s ≡ true → split_dots (s ++ (46 ∷ t)) ≡ s ∷ split_dots t
unfolding split_dots
split_dots-append [] t h = refl
split_dots-append (c ∷ s) t h = ground (arith, split_dots-append s t)

-- The other way round: the parts, joined by dots, are the text.
abbrev joined : List Text → Text
joined [] = []
joined (w ∷ []) = w
joined (w ∷ x ∷ ws) = w ++ (46 ∷ joined (x ∷ ws))

joined-cons_head : (c : ℕ) (ws : List Text) → joined (cons_head c ws) ≡ c ∷ joined ws
joined-cons_head c [] = refl
joined-cons_head c (w ∷ []) = refl
joined-cons_head c (w ∷ x ∷ ws) = refl

-- Whether a list of parts has one.
abbrev has_part : List Text → Bool
has_part [] = false
has_part (_ ∷ _) = true

has_part-cons_head : (c : ℕ) (ws : List Text) → has_part (cons_head c ws) ≡ true
has_part-cons_head c [] = refl
has_part-cons_head c (w ∷ ws) = refl

has_part-split_dots : (s : Text) → has_part (split_dots s) ≡ true
unfolding split_dots
has_part-split_dots [] = refl
has_part-split_dots (c ∷ s) = ground (arith, has_part-cons_head c (split_dots s))

joined-dot : (ws : List Text) → has_part ws ≡ true → joined ([] ∷ ws) ≡ 46 ∷ joined ws
joined-dot [] h = cc
joined-dot (w ∷ ws) h = refl

joined-split_dots : (s : Text) → joined (split_dots s) ≡ s
unfolding split_dots
joined-split_dots [] = refl
joined-split_dots (c ∷ s) = ground (
  arith,
  joined-split_dots s,
  joined-cons_head c (split_dots s),
  joined-dot (split_dots s),
  has_part-split_dots s,
)

all-append :
    (s t : Text)
    → all is_base64url_char (s ++ t) ≡ (all is_base64url_char s && all is_base64url_char t)
all-append [] t = refl
all-append (c ∷ s) t = ground (arith, all-append s t)

is_empty-append : (s t : Text) → is_empty s ≡ false → is_empty (s ++ t) ≡ false
is_empty-append [] t h = cc
is_empty-append (c ∷ s) t h = refl

module _ (node : Node) (secret domain : Text) where
  -- A base64url payload with a signature of its own, in base64url and as long as a digest.
  abbrev pub IsSigned : Text → Type 0
  IsSigned payload =
      (is_base64url payload ≡ true)
      × (is_base64url (sign_grant_payload node secret domain payload) ≡ true)
      × (length (sign_grant_payload node secret domain payload) ≡ 43)

  abbrev pub joined_grant : Text → Text
  joined_grant payload = payload ++ (46 ∷ sign_grant_payload node secret domain payload)

  check_parts_sound :
      (payload : Text) (ws : List Text)
      → check_parts node secret domain ws ≡ some payload
      → (joined ws ≡ joined_grant payload) × IsSigned payload
  check_parts_sound payload [] h = ground arith
  check_parts_sound payload (p ∷ []) h = ground arith
  check_parts_sound payload (p ∷ s ∷ x ∷ ws) h = ground arith
  check_parts_sound payload (p ∷ s ∷ []) h = ground (
    arith,
    text_eq_iff s (sign_grant_payload node secret domain p),
    ap (λ x. p ++ (46 ∷ x)) {x = s} {y = sign_grant_payload node secret domain p},
  )

  check_parts_complete :
      (payload : Text)
      → IsSigned payload
      → check_parts node secret domain
          (payload ∷ sign_grant_payload node secret domain payload ∷ [])
        ≡ some payload
  check_parts_complete payload (p, s, n) =
      ground (arith, text_eq_refl (sign_grant_payload node secret domain payload))

  -- `verifyGrantSignature` accepts exactly a base64url payload joined by one dot to its own
  -- signature of 43 base64url characters, the whole no longer than the limit, and answers the
  -- payload.
  pub verify_grant_signature-eq-some_iff :
      (max_length : ℕ) (grant payload : Text)
      → (verify_grant_signature node secret domain max_length (some grant) ≡ some payload)
        ↔ ((grant ≡ joined_grant payload) × IsSigned payload × (length grant ≤ max_length))
  unfolding verify_grant_signature
  verify_grant_signature-eq-some_iff max_length grant payload = (accepted, accepts)
    where
      accepted :
          verify_grant_signature node secret domain max_length (some grant) ≡ some payload
          → (grant ≡ joined_grant payload) × IsSigned payload × (length grant ≤ max_length)
      accepted h =
          ground (arith, check_parts_sound payload (split_dots grant), joined-split_dots grant)

      accepts :
          (grant ≡ joined_grant payload) × IsSigned payload × (length grant ≤ max_length)
          → verify_grant_signature node secret domain max_length (some grant) ≡ some payload
      accepts (e, signed, l) = ground (
        arith,
        e,
        l,
        check_parts_complete payload signed,
        ap split_dots e,
        split_dots-append payload (sign_grant_payload node secret domain payload),
        split_dots-all (sign_grant_payload node secret domain payload),
        is_empty-append payload (46 ∷ sign_grant_payload node secret domain payload),
        ap is_empty e,
        signed,
      )

-- The last dot is found from the end, since no payload holds one.
last_dot :
    (d e p q : Text)
    → all is_base64url_char p ≡ true
    → all is_base64url_char q ≡ true
    → d ++ (46 ∷ p) ≡ e ++ (46 ∷ q)
    → (d ≡ e) × (p ≡ q)
last_dot [] [] p q h k x = ground (arith, x)
last_dot [] (c ∷ e) p q h k x = ground (arith, x, all-append e (46 ∷ q))
last_dot (c ∷ d) [] p q h k x = ground (arith, x, all-append d (46 ∷ p))
last_dot (c ∷ d) (b ∷ e) p q h k x = ground (arith, x, last_dot d e p q h k)

-- Two base64url payloads are never signed over the same bytes, unless they are equal and so are
-- their domains: also the empty domain of the media grants is a domain of its own.
pub mac_input_injective :
    (d e p q : Text)
    → is_base64url p ≡ true
    → is_base64url q ≡ true
    → mac_input d p ≡ mac_input e q
    → (d ≡ e) × (p ≡ q)
unfolding mac_input
mac_input_injective [] [] p q h k x = (refl, x)
mac_input_injective [] (c ∷ e) p q h k x = ground (arith, x, all-append (c ∷ e) (46 ∷ q))
mac_input_injective (c ∷ d) [] p q h k x = ground (arith, x, all-append (c ∷ d) (46 ∷ p))
mac_input_injective (c ∷ d) (b ∷ e) p q h k x =
    last_dot (c ∷ d) (b ∷ e) p q (ground arith) (ground arith) x
