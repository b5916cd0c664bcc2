-- ===== src/ShareLinks/Budget.antt =====
-- The view budget of a link, and the agreement of the public gate with the atomic count.
use bom_media_api.Common.{
  ℕ, suc, ◌+◌, ◌*◌, ◌≤◌, ◌≡◌, ◌↔◌, ◌⊎◌, inl, inr, Bool-cases, refl, true, false, ◌&&◌, none, some,
  List, [], ◌∷◌, arith, if◌then◌else◌, count, All, Text, text_eq, text_eq_iff,
}
use bom_media_api.ShareLinks.{
  ShareLink, is_used_up, get_denied_reason, get_denied_reason_for_media_playback, may_count,
  increment_share_link_view, view_limit_reached,
}

-- For a link whose row is unchanged since it was read, the gate lets a view through exactly when
-- the conditional update counts it.
pub get_denied_reason-may_count :
    (l : ShareLink) (now : ℕ)
    → (get_denied_reason l now ≡ none) ↔ (may_count l.id l.max_views now l ≡ true)
unfolding get_denied_reason
get_denied_reason-may_count l now = (λ h. ground (arith, text_eq_iff l.id l.id), λ h. ground arith)

-- The media gate lets through what the watch gate lets through, and the links that were refused
-- for their view limit alone.
pub get_denied_reason_for_media_playback_lem :
    (l : ShareLink) (now : ℕ)
    → (get_denied_reason_for_media_playback l now ≡ none)
      ↔ ((get_denied_reason l now ≡ none) ⊎ (get_denied_reason l now ≡ some view_limit_reached))
unfolding get_denied_reason get_denied_reason_for_media_playback
get_denied_reason_for_media_playback_lem l now = (
  λ h. elim (Bool-cases (is_used_up l.max_views l.current_views)) [
    | inl used ↦ inr (ground arith)
    | inr left ↦ inl (ground arith)
  ],
  λ h. ground arith,
)

-- The views counted on the rows with an id.
abbrev pub views_of : Text → List ShareLink → ℕ
views_of id [] = 0
views_of id (l ∷ ls) = if text_eq l.id id then l.current_views + views_of id ls else views_of id ls

-- A sequence of public views, each of the link as it was read and at its time: how many of the
-- views of one link were counted.
unfoldable pub granted : Text → List (ShareLink × ℕ × ℕ) → List ShareLink → ℕ
unfolding increment_share_link_view
granted id [] links = 0
granted id ((read, now, stamp) ∷ attempts) links =
    let rest = granted id attempts (increment_share_link_view read now stamp links).0 in
    if text_eq read.id id && (increment_share_link_view read now stamp links).1
    then suc rest
    else rest

abbrev pub rows : Text → List ShareLink → ℕ
rows id = count (λ l. text_eq l.id id)

-- The rows with an id have this budget and keep to it.
abbrev pub Keeps : Text → ℕ → List ShareLink → Type 0
Keeps id top =
    All (λ l. text_eq l.id id ≡ true → (l.max_views ≡ some top) × (l.current_views ≤ top))

views_of-le :
    (id : Text) (top : ℕ) (ls : List ShareLink)
    → Keeps id top ls
    → views_of id ls ≤ rows id ls * top
views_of-le id top [] h = omega arith
views_of-le id top (l ∷ ls) h = elim (Bool-cases (text_eq l.id id)) [
  | inl own ↦ rw own (omega (arith, views_of-le id top ls h.1, (h.0 own).1))
  | inr other ↦ rw other (omega (arith, views_of-le id top ls h.1))
]

module _ (id : Text) (top : ℕ) (read : ShareLink) (now stamp : ℕ)
    (agrees : text_eq read.id id ≡ true → read.max_views ≡ some top) where
  count_view-Keeps :
      (l : ShareLink)
      → (text_eq l.id id ≡ true → (l.max_views ≡ some top) × (l.current_views ≤ top))
      → may_count read.id read.max_views now l ≡ true
      → text_eq l.id id ≡ true
      → (l.max_views ≡ some top) × (l.current_views + 1 ≤ top)
  count_view-Keeps l h counted own =
      let same : text_eq read.id id ≡ true =
        ground (arith, text_eq_iff l.id read.id, text_eq_iff l.id id, text_eq_iff read.id id) in
      let budget = agrees same in let kept = h own in ground arith

  increment-Keeps :
      (ls : List ShareLink)
      → Keeps id top ls
      → Keeps id top (increment_share_link_view read now stamp ls).0
  unfolding increment_share_link_view
  increment-Keeps [] h = tt
  increment-Keeps (l ∷ ls) h = elim (Bool-cases (may_count read.id read.max_views now l)) [
    | inl counted ↦ rw counted (count_view-Keeps l h.0 counted, increment-Keeps ls h.1)
    | inr passed ↦ rw passed (h.0, increment-Keeps ls h.1)
  ]

  rows-increment :
      (ls : List ShareLink) → rows id (increment_share_link_view read now stamp ls).0 ≡ rows id ls
  unfolding increment_share_link_view
  rows-increment [] = refl
  rows-increment (l ∷ ls) = ground (arith, rows-increment ls)

  views_of-increment :
      (ls : List ShareLink)
      → text_eq read.id id ≡ true
      → views_of id (increment_share_link_view read now stamp ls).0
        ≡ views_of id ls + count (may_count read.id read.max_views now) ls
  unfolding increment_share_link_view
  views_of-increment [] same = refl
  views_of-increment (l ∷ ls) same = ground (
    arith,
    views_of-increment ls same,
    text_eq_iff l.id read.id,
    text_eq_iff l.id id,
    text_eq_iff read.id id,
  )

  views_of-increment_other :
      (ls : List ShareLink)
      → text_eq read.id id ≡ false
      → views_of id (increment_share_link_view read now stamp ls).0 ≡ views_of id ls
  unfolding increment_share_link_view
  views_of-increment_other [] other = refl
  views_of-increment_other (l ∷ ls) other = ground (
    arith,
    views_of-increment_other ls other,
    text_eq_iff l.id read.id,
    text_eq_iff l.id id,
    text_eq_iff read.id id,
  )

  -- A view of the link that is granted is one more on its row.
  views_of-granted :
      (ls : List ShareLink)
      → (if text_eq read.id id && (increment_share_link_view read now stamp ls).1 then 1 else 0)
          + views_of id ls
        ≤ views_of id (increment_share_link_view read now stamp ls).0
  unfolding increment_share_link_view
  views_of-granted ls = elim (Bool-cases (text_eq read.id id)) [
    | inl same ↦ ground (arith, views_of-increment ls same)
    | inr other ↦ ground (arith, views_of-increment_other ls other)
  ]

abbrev Agrees : Text → ℕ → ShareLink × ℕ × ℕ → Type 0
Agrees id top attempt = text_eq attempt.0.id id ≡ true → attempt.0.max_views ≡ some top

granted-views_of :
    (id : Text) (top : ℕ) (attempts : List (ShareLink × ℕ × ℕ)) (ls : List ShareLink)
    → All (Agrees id top) attempts
    → Keeps id top ls
    → granted id attempts ls + views_of id ls ≤ rows id ls * top
unfolding granted
granted-views_of id top [] ls a k = omega (arith, views_of-le id top ls k)
granted-views_of id top ((read, now, stamp) ∷ attempts) ls a k =
    let after = (increment_share_link_view read now stamp ls).0 in
    ground (
      arith,
      granted-views_of id top attempts after a.1 (increment-Keeps id top read now stamp a.0 ls k),
      views_of-granted id top read now stamp a.0 ls,
      rows-increment id top read now stamp a.0 ls,
    )

-- However many requests for a link with a view budget arrive, in any order and at any times, each
-- with a copy of the link that may be stale in all but its budget, the views that are granted and
-- those counted before stay within the budget. The link has one row, which keeps to the budget.
pub granted-le :
    (id : Text) (top : ℕ) (attempts : List (ShareLink × ℕ × ℕ)) (ls : List ShareLink)
    → rows id ls ≡ 1
    → Keeps id top ls
    → All (Agrees id top) attempts
    → granted id attempts ls + views_of id ls ≤ top
granted-le id top attempts ls one k a =
    let h = granted-views_of id top attempts ls a k in
    let bound : rows id ls * top ≡ top = rw one (omega arith) in omega arith
