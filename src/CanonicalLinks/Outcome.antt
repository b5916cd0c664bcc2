-- ===== src/CanonicalLinks/Outcome.antt =====
-- The errors of src/admin-websites/canonical-share-link.service.ts (CANONICAL_ERROR_CODES, the plain
-- exceptions, and what the database reports), and what it is given.
use bom_media_api.Common.{ℕ, Bool, true, false, Option, none, some, Text, ◌≡◌, refl, arith}
use bom_media_api.Canonical.{PinBlocker}
use bom_media_api.ShareUrls.{Js, Url, UrlError, url, bad}
use bom_media_api.CanonicalLinks.Tables.{Snapshot}

pub data Fault : Type 0 where
  link_alias_missing website_mismatch membership_mismatch has_expiry has_max_views : Fault

pub data Error : Type 0 where
  website_not_found video_not_found no_active_domain video_not_active pepper_required not_unique
        inactive revoked domain_unavailable video_not_shareable evidence_drift evidence_incomplete
        not_found options_not_allowed wrong_website wrong_members alias_required options_present
        pair_conflict credential_collision serialization_conflict id_taken :
      Error
  pin_blocked : PinBlocker → (candidates : ℕ) → Error
  contract : Fault → Error
  bad_url : UrlError → Error

pub data Result (A : Type 0) : Type 0 where
  ok : A → Result A
  err : Error → Result A

infixl 10 ◌>>=◌
-- Go on with a value, unless there is an error.
abbrev pub ◌>>=◌ : {A B : Type 0} → Result A → (A → Result B) → Result B
ok a >>= f = f a
err e >>= f = err e

abbrev pub pure : {A : Type 0} → A → Result A
pure a = ok a

-- A check that throws.
abbrev pub check : Bool → Error → Result (Unit {0})
check true e = ok tt
check false e = err e

abbrev pub found : {A : Type 0} → Option A → Error → Result A
found none e = err e
found (some a) e = ok a

abbrev pub of_url : Url → Result Text
of_url (url u) = ok u
of_url (bad e) = err (bad_url e)

-- JavaScript, the SHA-256 of the JSON of a snapshot with its properties in order, the digest of a
-- token under the pepper, and the configuration, trimmed where the code trims it.
pub record Env : Type 0 where
  pub js : Js
  pub sha256_json : Snapshot → Text
  pub hash_share_token : Text → Text → Text
  pub share_token_pepper : Option Text
  pub public_share_local_protocol : Option Text
  pub public_site_protocol : Option Text
  pub public_compatibility_url_hosts : Option Text

-- A chain that gave a value had one at its first step.
pub bind-ok :
    {A B : Type 0} (m : Result A) (f : A → Result B) (b : B)
    → (m >>= f) ≡ ok b
    → (a : A) × (m ≡ ok a) × (f a ≡ ok b)
bind-ok (ok a) f b e = (a, refl, e)
bind-ok (err x) f b e = ground arith

pub found-ok : {A : Type 0} (o : Option A) (x : Error) (a : A) → found o x ≡ ok a → o ≡ some a
found-ok none x a e = ground arith
found-ok (some b) x a e = ground (arith, e)

pub check-ok : (b : Bool) (x : Error) (u : Unit {0}) → check b x ≡ ok u → b ≡ true
check-ok true x u e = refl
check-ok false x u e = ground arith
