-- ===== src/Grants/FixedWidth.antt =====
-- src/public/utils/grant-signature.util.ts: grants whose signature is found by its width.
use bom_media_api.Common.{
  ℕ, zero, suc, ◌+◌, ◌-◌, ◌≤◌, ◌≡◌, ◌↔◌, inl, inr, refl, ap, ◌∙◌, true, false, some, [], ◌∷◌, ◌++◌,
  ltb, length, length-append, Text, text_eq_iff, text_eq_refl, is_empty, slice_to, arith,
  Option-cases,
}
use bom_media_api.Grants.{
  Node, is_base64url, slice_from, split_fixed_width_grant, sign_grant_payload,
  verify_fixed_width_grant_signature,
}

-- Cutting a text at the end of its first part gives back the parts.
slice_to-append : (s t : Text) → slice_to (length s) (s ++ t) ≡ s
unfolding slice_to
slice_to-append [] t = refl
slice_to-append (c ∷ s) t = ap (λ x. c ∷ x) (slice_to-append s t)

slice_from-append : (s t : Text) → slice_from (length s) (s ++ t) ≡ t
unfolding slice_from
slice_from-append [] t = refl
slice_from-append (c ∷ s) t = slice_from-append s t

slice_to-slice_from : (n : ℕ) (s : Text) → slice_to n s ++ slice_from n s ≡ s
unfolding slice_to slice_from
slice_to-slice_from zero s = refl
slice_to-slice_from (suc n) [] = refl
slice_to-slice_from (suc n) (c ∷ s) = ap (λ x. c ∷ x) (slice_to-slice_from n s)

length-slice_from : (n : ℕ) (s : Text) → n ≤ length s → length (slice_from n s) ≡ length s - n
unfolding slice_from
length-slice_from zero s h = omega arith
length-slice_from (suc n) [] h = omega arith
length-slice_from (suc n) (c ∷ s) h = ground (arith, length-slice_from n s)

is_empty-slice_to :
    (n : ℕ) (s : Text) → ltb 0 n ≡ true → is_empty s ≡ false → is_empty (slice_to n s) ≡ false
unfolding slice_to
is_empty-slice_to zero s h k = ground arith
is_empty-slice_to (suc n) [] h k = cc
is_empty-slice_to (suc n) (c ∷ s) h k = refl

length-is_empty : (s : Text) → is_empty s ≡ false → ltb 0 (length s) ≡ true
length-is_empty [] h = cc
length-is_empty (c ∷ s) h = ground arith

-- `splitFixedWidthGrant` cuts a base64url text, given as a payload that is not empty and a
-- signature of 43 characters put together, into these two, and what it answers for any text is a
-- cut of the text with a signature of 43 characters.
pub split_fixed_width_grant-eq-some_iff :
    (value payload signature : Text)
    → (split_fixed_width_grant value ≡ some (payload, signature)) ↔ (
        (value ≡ payload ++ signature)
        × (length signature ≡ 43)
        × (is_empty payload ≡ false)
        × (is_base64url value ≡ true))
unfolding split_fixed_width_grant
split_fixed_width_grant-eq-some_iff value payload signature = (cuts, is_cut)
  where
    cuts :
        split_fixed_width_grant value ≡ some (payload, signature)
        → (value ≡ payload ++ signature)
          × (length signature ≡ 43)
          × (is_empty payload ≡ false)
          × (is_base64url value ≡ true)
    cuts h = ground (
      arith,
      slice_to-slice_from (length value - 43) value,
      length-slice_from (length value - 43) value,
      is_empty-slice_to (length value - 43) value,
    )

    is_cut :
        (value ≡ payload ++ signature)
          × (length signature ≡ 43)
          × (is_empty payload ≡ false)
          × (is_base64url value ≡ true)
        → split_fixed_width_grant value ≡ some (payload, signature)
    is_cut (e, n, p, b) = ground (
      arith,
      b,
      split_at,
      ap (λ x. slice_to x value) at,
      ap (λ x. slice_from x value) at,
      ap (slice_to (length payload)) e ∙ slice_to-append payload signature,
      ap (slice_from (length payload)) e ∙ slice_from-append payload signature,
    )
      where
        lengths : length value ≡ length payload + 43
        lengths = ground (arith, ap length e, length-append payload signature, n)

        at : length value - 43 ≡ length payload
        at = omega (arith, lengths)

        split_at : ltb 43 (length value) ≡ true
        split_at = ground (arith, lengths, length-is_empty payload p)

-- Exactly a payload that is not empty with its own signature of 43 characters behind it, all of it
-- base64url, is accepted by `verifyFixedWidthGrantSignature`, which answers the payload.
pub verify_fixed_width_grant_signature-eq-some_iff :
    (node : Node) (secret domain value payload : Text)
    → (verify_fixed_width_grant_signature node secret domain value ≡ some payload) ↔ (
        (value ≡ payload ++ sign_grant_payload node secret domain payload)
        × (length (sign_grant_payload node secret domain payload) ≡ 43)
        × (is_empty payload ≡ false)
        × (is_base64url value ≡ true))
unfolding verify_fixed_width_grant_signature
verify_fixed_width_grant_signature-eq-some_iff node secret domain value payload =
    (accepted, accepts)
  where
    accepted :
        verify_fixed_width_grant_signature node secret domain value ≡ some payload
        → (value ≡ payload ++ sign_grant_payload node secret domain payload)
          × (length (sign_grant_payload node secret domain payload) ≡ 43)
          × (is_empty payload ≡ false)
          × (is_base64url value ≡ true)
    accepted h = elim (Option-cases (split_fixed_width_grant value)) [
      | inl e ↦ ground (arith, e)
      | inr ((p, s), e) ↦ ground (
        arith,
        e,
        text_eq_iff s (sign_grant_payload node secret domain p),
        ap (λ x. p ++ x) {x = s} {y = sign_grant_payload node secret domain p},
        (split_fixed_width_grant-eq-some_iff value p s).0 e,
      )
    ]

    accepts :
        (value ≡ payload ++ sign_grant_payload node secret domain payload)
          × (length (sign_grant_payload node secret domain payload) ≡ 43)
          × (is_empty payload ≡ false)
          × (is_base64url value ≡ true)
        → verify_fixed_width_grant_signature node secret domain value ≡ some payload
    accepts h = ground (
      arith,
      (split_fixed_width_grant-eq-some_iff value payload
            (sign_grant_payload node secret domain payload)).1
          h,
      text_eq_refl (sign_grant_payload node secret domain payload),
    )
