-- ===== src/ShareUrls/Hosts.antt =====
-- src/admin-websites/utils/share-url.util.ts: which hosts the list of compatibility hosts allows.
use bom_media_api.Common.{
  ◌≡◌, ◌↔◌, ◌⊎◌, inl, inr, true, ◌||◌, some, List, [], ◌∷◌, ◌++◌, arith, Text, text_eq, text_eq_iff,
  Bool-cases, Option-cases,
}
use bom_media_api.ShareUrls.{
  Js, includes, add, add_host, add_hosts, split_commas, parse_compatibility_url_hosts, is_host_in,
  is_compatibility_url_host, is_compatibility_capable_host, normalize_website_domain,
}

includes-append :
    (ts : List Text) (t h : Text) → includes (ts ++ (t ∷ [])) h ≡ (includes ts h || text_eq t h)
includes-append [] t h = ground arith
includes-append (x ∷ ts) t h = ground (arith, includes-append ts t h)

includes-add :
    (ts : List Text) (t h : Text) → includes (add ts t) h ≡ (includes ts h || text_eq t h)
includes-add ts t h = elim (Bool-cases (includes ts t)) [
  | inl p ↦ elim (Bool-cases (text_eq t h)) [
    | inl e ↦ ground (arith, p, e, text_eq_iff t h)
    | inr e ↦ ground (arith, p, e)
  ]
  | inr p ↦ ground (arith, p, includes-append ts t h)
]

module _ (js : Js) where
  -- An entry is written for the host.
  abbrev pub Listed : Text → List Text → Type 0
  Listed h [] = ⊥
  Listed h (e ∷ es) = (normalize_website_domain js e ≡ some h) ⊎ Listed h es

  includes-add_host :
      (e h : Text) (ts : List Text)
      → (includes (add_host js e ts) h ≡ true)
        ↔ ((includes ts h ≡ true) ⊎ (normalize_website_domain js e ≡ some h))
  unfolding add_host
  includes-add_host e h ts = elim (Option-cases (normalize_website_domain js e)) [
    | inl n ↦ ground (arith, n)
    | inr (t, n) ↦ ground (arith, n, includes-add ts t h, text_eq_iff t h)
  ]

  includes-add_hosts :
      (h : Text) (es ts : List Text)
      → (includes (add_hosts js es ts) h ≡ true) ↔ ((includes ts h ≡ true) ⊎ Listed h es)
  unfolding add_hosts
  includes-add_hosts h [] ts = ground arith
  includes-add_hosts h (e ∷ es) ts =
      ground (arith, includes-add_hosts h es (add_host js e ts), includes-add_host e h ts)

  url_host_iff :
      (host : Text) (hosts : List Text)
      → (is_compatibility_url_host js (some host) hosts ≡ true)
        ↔ ((h : Text) × (normalize_website_domain js host ≡ some h) × (includes hosts h ≡ true))
  unfolding is_compatibility_url_host is_host_in
  url_host_iff host [] = (λ e. ground arith, λ (h, _, e). ground arith)
  url_host_iff host (t ∷ ts) = elim (Option-cases (normalize_website_domain js host)) [
    | inl n ↦ (λ e. ground (arith, n), λ (h, m, e). ground (arith, n, m))
    | inr (h, n) ↦ (λ e. (h, n, ground (arith, n, e)), λ (g, m, e). ground (arith, n, m, e))
  ]

  -- A host may be given a compatibility URL exactly if some entry of the list, which is split at its
  -- commas, names the same host: `normalizeWebsiteDomain` gives a host for both, and it is one.
  -- Entries that are no domains allow nothing.
  pub is_compatibility_capable_host_iff :
      (host raw : Text)
      → (is_compatibility_capable_host js (some host) (some raw) ≡ true)
        ↔ ((h : Text) × (normalize_website_domain js host ≡ some h) × Listed h (split_commas raw))
  unfolding is_compatibility_capable_host parse_compatibility_url_hosts
  is_compatibility_capable_host_iff host raw =
      let hosts = add_hosts js (split_commas raw) [] in
      (
        λ e.
            let (h, n, i) = (url_host_iff host hosts).0 e in
            (h, n, listed h ((includes-add_hosts h (split_commas raw) []).0 i)),
        λ (h, n, l).
            (url_host_iff host hosts).1
              (h, n, (includes-add_hosts h (split_commas raw) []).1 (inr l)),
      )
    where
      listed :
          (h : Text)
          → (includes [] h ≡ true) ⊎ Listed h (split_commas raw)
          → Listed h (split_commas raw)
      listed h (inl e) = absurd (ground arith)
      listed h (inr l) = l
