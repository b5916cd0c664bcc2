-- ===== src/Canonical/Winner.antt =====
-- The winner is the newest link, whatever the order and the statuses of the candidates.
use bom_media_api.Common.{
  ℕ, ◌<◌, ◌≡◌, ◌↔◌, ◌⊎◌, inl, inr, refl, sym, ap, subst, true, false, Option, none, some, List, [],
  ◌∷◌, length, All, text_lt, text_lt_irrefl, text_lt_trans, text_lt_total, arith, Bool-cases,
}
use bom_media_api.Canonical.{
  AnchoredPair, Candidate, is_positive, compare_canonical_candidates, insert, sort, first_of_sorted,
  select_canonical_historical_winner,
}

-- No older than the other, and in the same millisecond of no lower id.
abbrev pub IsNewer : Candidate → Candidate → Type 0
IsNewer a b = is_positive (compare_canonical_candidates a b) ≡ false

-- What the comparison means.
pub IsNewer-cases :
    (a b : Candidate)
    → IsNewer a b
    → (b.created_at < a.created_at) ⊎ ((b.created_at ≡ a.created_at) × (text_lt a.id b.id ≡ false))
unfolding compare_canonical_candidates
IsNewer-cases a b h = ground arith

IsNewer-trans : (a b c : Candidate) → IsNewer a b → IsNewer b c → IsNewer a c
unfolding compare_canonical_candidates
IsNewer-trans a b c h k = ground (
  arith,
  text_lt_trans a.id c.id b.id,
  text_lt_trans c.id a.id b.id,
  text_lt_trans b.id a.id c.id,
  text_lt_total a.id b.id,
  text_lt_total b.id c.id,
)

IsNewer-total :
    (a b : Candidate) → is_positive (compare_canonical_candidates a b) ≡ true → IsNewer b a
unfolding compare_canonical_candidates
IsNewer-total a b h = ground (arith, text_lt_trans a.id b.id a.id, text_lt_irrefl a.id)

IsNewer-antisym : (a b : Candidate) → IsNewer a b → IsNewer b a → a.id ≡ b.id
unfolding compare_canonical_candidates
IsNewer-antisym a b h k = ground (arith, text_lt_total a.id b.id)

All-weaken :
    (a b : Candidate) (cs : List Candidate) → IsNewer a b → All (IsNewer b) cs → All (IsNewer a) cs
All-weaken a b [] h k = tt
All-weaken a b (c ∷ cs) h k = (IsNewer-trans a b c h k.0, All-weaken a b cs h k.1)

abbrev IsSorted : List Candidate → Type 0
IsSorted [] = Unit
IsSorted (c ∷ cs) = All (IsNewer c) cs × IsSorted cs

All-insert :
    (a c : Candidate) (cs : List Candidate)
    → IsNewer a c
    → All (IsNewer a) cs
    → All (IsNewer a) (insert c cs)
unfolding insert
All-insert a c [] h k = (h, tt)
All-insert a c (d ∷ ds) h k = ground (arith, All-insert a c ds h)

insert-IsSorted : (c : Candidate) (cs : List Candidate) → IsSorted cs → IsSorted (insert c cs)
unfolding insert
insert-IsSorted c [] s = (tt, tt)
insert-IsSorted c (d ∷ ds) s = elim (Bool-cases (is_positive (compare_canonical_candidates c d))) [
  | inl later ↦ rw later (All-insert d c ds (IsNewer-total c d later) s.0, insert-IsSorted c ds s.1)
  | inr first ↦ rw first ((first, All-weaken c d ds first s.0), s)
]

sort-IsSorted : (cs : List Candidate) → IsSorted (sort cs)
unfolding sort
sort-IsSorted [] = tt
sort-IsSorted (c ∷ cs) = insert-IsSorted c (sort cs) (sort-IsSorted cs)

abbrev pub In : Candidate → List Candidate → Type 0
In c [] = ⊥
In c (d ∷ ds) = (c ≡ d) ⊎ In c ds

In-insert : (x c : Candidate) (cs : List Candidate) → In x (insert c cs) → (x ≡ c) ⊎ In x cs
unfolding insert
In-insert x c [] h = h
In-insert x c (d ∷ ds) h = ground (arith, In-insert x c ds)

insert-In_head : (c : Candidate) (cs : List Candidate) → In c (insert c cs)
unfolding insert
insert-In_head c [] = inl refl
insert-In_head c (d ∷ ds) = ground (arith, insert-In_head c ds)

insert-In_tail : (x c : Candidate) (cs : List Candidate) → In x cs → In x (insert c cs)
unfolding insert
insert-In_tail x c [] h = absurd h
insert-In_tail x c (d ∷ ds) h = ground (arith, insert-In_tail x c ds)

In-sort : (x : Candidate) (cs : List Candidate) → In x (sort cs) → In x cs
unfolding sort
In-sort x [] h = h
In-sort x (c ∷ cs) h = elim (In-insert x c (sort cs) h) [
  | inl e ↦ inl e
  | inr k ↦ inr (In-sort x cs k)
]

sort-In : (x : Candidate) (cs : List Candidate) → In x cs → In x (sort cs)
unfolding sort
sort-In x [] h = h
sort-In x (c ∷ cs) (inl e) =
    subst (λ y. In y (insert c (sort cs))) (sym e) (insert-In_head c (sort cs))
sort-In x (c ∷ cs) (inr h) = insert-In_tail x c (sort cs) (sort-In x cs h)

All-at : (a x : Candidate) (cs : List Candidate) → All (IsNewer a) cs → In x cs → IsNewer a x
All-at a x [] h i = absurd i
All-at a x (c ∷ cs) h (inl e) = rw e h.0
All-at a x (c ∷ cs) h (inr i) = All-at a x cs h.1 i

IsNewer-refl : (a : Candidate) → IsNewer a a
unfolding compare_canonical_candidates
IsNewer-refl a = ground (arith, text_lt_irrefl a.id)

-- A member of the list that is newer than every member, or created in the same millisecond and of
-- no lower id.
abbrev pub IsNewest : Candidate → List Candidate → Type 0
IsNewest w cs =
    In w cs
    × ((c : Candidate)
        → In c cs
        → (c.created_at < w.created_at)
          ⊎ ((c.created_at ≡ w.created_at) × (text_lt w.id c.id ≡ false)))

head-IsNewest :
    (cs ds : List Candidate) (n : ℕ) (pair : AnchoredPair) (w : Candidate)
    → ((x : Candidate) → In x ds → In x cs)
    → ((x : Candidate) → In x cs → In x ds)
    → IsSorted ds
    → (first_of_sorted ds n pair).winner ≡ some w
    → In w cs × ((c : Candidate) → In c cs → IsNewer w c)
unfolding first_of_sorted
head-IsNewest cs [] n pair w into from s h = cc
head-IsNewest cs (d ∷ ds) n pair w into from s h =
    let same : d ≡ w = cc in
    (
      into w (inl (sym same)),
      λ c i. subst (λ x. IsNewer x c) same (All-at d c (d ∷ ds) (IsNewer-refl d, s.0) (from c i)),
    )

winner-IsNewer :
    (cs : List Candidate) (pair : AnchoredPair) (w : Candidate)
    → (select_canonical_historical_winner cs pair).winner ≡ some w
    → In w cs × ((c : Candidate) → In c cs → IsNewer w c)
unfolding select_canonical_historical_winner
winner-IsNewer cs pair w h =
    head-IsNewest cs (sort cs) (length cs) pair w (λ x. In-sort x cs) (λ x. sort-In x cs)
      (sort-IsSorted cs) h

-- The winner is one of the candidates, and no candidate was created later, or in the same
-- millisecond with a higher id.
pub winner-IsNewest :
    (cs : List Candidate) (pair : AnchoredPair) (w : Candidate)
    → (select_canonical_historical_winner cs pair).winner ≡ some w
    → IsNewest w cs
winner-IsNewest cs pair w h =
    let (member, newer) = winner-IsNewer cs pair w h in
    (member, λ c i. IsNewer-cases w c (newer c i))

first_of_sorted-none :
    (cs ds : List Candidate) (n : ℕ) (pair : AnchoredPair)
    → ((x : Candidate) → In x cs → In x ds)
    → (first_of_sorted ds n pair).winner ≡ none
    → cs ≡ []
unfolding first_of_sorted
first_of_sorted-none [] ds n pair from h = refl
first_of_sorted-none (c ∷ cs) [] n pair from h = absurd (from c (inl refl))
first_of_sorted-none (c ∷ cs) (d ∷ ds) n pair from h = cc

-- There is no winner, and so leave to mint a new link, exactly where there is no candidate.
pub winner-eq-none_iff :
    (cs : List Candidate) (pair : AnchoredPair)
    → ((select_canonical_historical_winner cs pair).winner ≡ none) ↔ (cs ≡ [])
unfolding select_canonical_historical_winner first_of_sorted sort
winner-eq-none_iff cs pair =
    (first_of_sorted-none cs (sort cs) (length cs) pair (λ x. sort-In x cs), λ e. rw e refl)

-- No two members have one id.
abbrev pub HasUniqueIds : List Candidate → Type 0
HasUniqueIds cs = (a b : Candidate) → In a cs → In b cs → a.id ≡ b.id → a ≡ b

-- The order in which the database returns the candidates does not matter: two lists with the same
-- members, whose ids are unique, have the same winner.
pub winner_order_irrelevant :
    (cs ds : List Candidate) (pair : AnchoredPair)
    → ((x : Candidate) → In x cs → In x ds)
    → ((x : Candidate) → In x ds → In x cs)
    → HasUniqueIds cs
    → (select_canonical_historical_winner cs pair).winner
      ≡ (select_canonical_historical_winner ds pair).winner
winner_order_irrelevant cs ds pair into from unique =
    go (select_canonical_historical_winner cs pair).winner
      (select_canonical_historical_winner ds pair).winner refl refl
  where
    go :
        (v w : Option Candidate)
        → (select_canonical_historical_winner cs pair).winner ≡ v
        → (select_canonical_historical_winner ds pair).winner ≡ w
        → v ≡ w
    go none none h k = refl
    go none (some w) h k =
        absurd
          (subst (In w) ((winner-eq-none_iff cs pair).0 h) (from w (winner-IsNewer ds pair w k).0))
    go (some v) none h k =
        absurd
          (subst (In v) ((winner-eq-none_iff ds pair).0 k) (into v (winner-IsNewer cs pair v h).0))
    go (some v) (some w) h k =
        let (mine, newest) = winner-IsNewer cs pair v h in
        let (theirs, newest') = winner-IsNewer ds pair w k in
        ap some (
          unique v w mine (from w theirs)
            (IsNewer-antisym v w (newest w (from w theirs)) (newest' v (into v mine))))
