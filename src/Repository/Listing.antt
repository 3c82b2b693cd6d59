-- ===== src/Repository/Listing.antt =====
-- Pages of documents: what they hold, how long they are, in which order, and how they join.
use Prim.Native.Nat.{min}
use mathlib.Core.List.{Perm}
use mathlib.Core.List.Perm
use a_pag_ai_knowledge_base.Prelude.{
  ◌+◌, ◌-◌, ◌≤◌, ◌≡◌, refl, ap, ◌∙◌, Bool, true, Option, List, [], ◌∷◌, ◌++◌, arith, leb, All,
  keep_if, keep_if-true, All-map, All-take, All-drop, length, take, drop, take-add, Bool-cases,
  tests, inl, inr, drop-add, length-take, length-drop, take-length, ℕ, zero, suc, sym, false, none,
  some, not, is_some, ◌&&◌, subst,
}
use a_pag_ai_knowledge_base.Access.{can_view}
use a_pag_ai_knowledge_base.Documents.{Document}
use a_pag_ai_knowledge_base.Repository.{Storage, insert_by, sort_newest, is_listed, list_paginated}

module _ (key : Document → ℕ) where
  -- The keys never rise along the list.
  abbrev pub IsNewestFirst : List Document → Type 0
  IsNewestFirst [] = Unit
  IsNewestFirst (d ∷ l) = All (λ e. key e ≤ key d) l × IsNewestFirst l

  insert_by-perm : (d : Document) (l : List Document) → Perm (insert_by key d l) (d ∷ l)
  unfolding insert_by
  insert_by-perm d [] = Perm.refl _
  insert_by-perm d (e ∷ l) = ground (
    arith,
    Perm.refl (d ∷ e ∷ l),
    Perm.trans (Perm.cons e (insert_by-perm d l)) (Perm.swap d e l),
  )

  pub sort_newest-perm : (l : List Document) → Perm (sort_newest key l) l
  unfolding sort_newest
  sort_newest-perm [] = Perm.refl _
  sort_newest-perm (d ∷ l) =
      Perm.trans (insert_by-perm d (sort_newest key l)) (Perm.cons d (sort_newest-perm l))

  insert_by-All :
      (P : Document → Type 0) (d : Document) (l : List Document)
      → P d
      → All P l
      → All P (insert_by key d l)
  unfolding insert_by
  insert_by-All P d [] p h = (p, tt)
  insert_by-All P d (e ∷ l) p h = ground (arith, insert_by-All P d l p h.1)

  insert_by-IsNewestFirst :
      (d : Document) (l : List Document) → IsNewestFirst l → IsNewestFirst (insert_by key d l)
  unfolding insert_by
  insert_by-IsNewestFirst d [] h = (tt, tt)
  insert_by-IsNewestFirst d (e ∷ l) h = elim (Bool-cases (leb (key e) (key d))) [
    | inl newer ↦ rw newer ((omega tests, All-map (λ x (le : key x ≤ key e). omega tests) l h.0), h)
    | inr older ↦
        rw older (
          insert_by-All (λ x. key x ≤ key e) d l (omega tests) h.0,
          insert_by-IsNewestFirst d l h.1,
        )
  ]

  pub sort_newest-IsNewestFirst : (l : List Document) → IsNewestFirst (sort_newest key l)
  unfolding sort_newest
  sort_newest-IsNewestFirst [] = tt
  sort_newest-IsNewestFirst (d ∷ l) =
      insert_by-IsNewestFirst d (sort_newest key l) (sort_newest-IsNewestFirst l)

  pub sort_newest-All :
      (P : Document → Type 0) (l : List Document) → All P l → All P (sort_newest key l)
  unfolding sort_newest
  sort_newest-All P [] h = tt
  sort_newest-All P (d ∷ l) h = insert_by-All P d (sort_newest key l) h.0 (sort_newest-All P l h.1)

  length-insert_by :
      (d : Document) (l : List Document) → length (insert_by key d l) ≡ suc (length l)
  unfolding insert_by
  length-insert_by d [] = refl
  length-insert_by d (e ∷ l) = ground (arith, length-insert_by d l)

  pub length-sort_newest : (l : List Document) → length (sort_newest key l) ≡ length l
  unfolding sort_newest
  length-sort_newest [] = refl
  length-sort_newest (d ∷ l) =
      length-insert_by d (sort_newest key l) ∙ ap suc (length-sort_newest l)

  take-IsNewestFirst : (n : ℕ) (l : List Document) → IsNewestFirst l → IsNewestFirst (take n l)
  take-IsNewestFirst zero l h = tt
  take-IsNewestFirst (suc n) [] h = tt
  take-IsNewestFirst (suc n) (d ∷ l) h =
      (All-take (λ x. key x ≤ key d) n l h.0, take-IsNewestFirst n l h.1)

  drop-IsNewestFirst : (n : ℕ) (l : List Document) → IsNewestFirst l → IsNewestFirst (drop n l)
  drop-IsNewestFirst zero l h = h
  drop-IsNewestFirst (suc n) [] h = tt
  drop-IsNewestFirst (suc n) (d ∷ l) h = drop-IsNewestFirst n l h.1

module _ (viewer_id : Option ℕ) (viewer_is_admin : Bool) where
  -- A document that was never deleted, and that the viewer may see.
  abbrev may_see : Document → Bool
  may_see d = elim d.deleted_at [
    | none ↦ can_view d.classification d.owner_id viewer_id viewer_is_admin
    | some t ↦ false
  ]

  is_listed-may_see : (d : Document) → is_listed viewer_id viewer_is_admin d ≡ may_see d
  is_listed-may_see d = by_deletion d.deleted_at
    where
      by_deletion :
          (t : Option ℕ)
          → (not (is_some t) && can_view d.classification d.owner_id viewer_id viewer_is_admin)
            ≡ elim t [
              | none ↦ can_view d.classification d.owner_id viewer_id viewer_is_admin
              | some t ↦ false
            ]
      by_deletion none = refl
      by_deletion (some t) = refl

  is_listed-facts :
      (d : Document)
      → is_listed viewer_id viewer_is_admin d ≡ true
      → (d.deleted_at ≡ none)
        × (can_view d.classification d.owner_id viewer_id viewer_is_admin ≡ true)
  is_listed-facts d h = by_deletion d.deleted_at h
    where
      by_deletion :
          (t : Option ℕ)
          → (not (is_some t) && can_view d.classification d.owner_id viewer_id viewer_is_admin)
            ≡ true
          → (t ≡ none) × (can_view d.classification d.owner_id viewer_id viewer_is_admin ≡ true)
      by_deletion none k = (refl, k)
      by_deletion (some t) k = absurd (cc k)

  keep_if-may_see :
      (s : Storage) → keep_if (is_listed viewer_id viewer_is_admin) s ≡ keep_if may_see s
  keep_if-may_see [] = refl
  keep_if-may_see (d ∷ s) = rw (is_listed-may_see d) rw (keep_if-may_see s) refl

  -- No document of a page was deleted, and each has a tier and an owner under which the viewer may
  -- see it. A page is newest first. And the page at offset 0 whose limit is the total is a
  -- permutation of those documents of the storage that were never deleted and that the viewer may
  -- see.
  pub list_paginated-safe :
      (limit offset : ℕ) (s : Storage)
      → All
          (λ d.
            (d.deleted_at ≡ none)
            × (can_view d.classification d.owner_id viewer_id viewer_is_admin ≡ true))
          (list_paginated limit offset viewer_id viewer_is_admin s).0
        × IsNewestFirst
            (λ d. d.created_at)
            (list_paginated limit offset viewer_id viewer_is_admin s).0
        × Perm
            (list_paginated
              (list_paginated limit offset viewer_id viewer_is_admin s).1
              0
              viewer_id
              viewer_is_admin
              s).0
            (keep_if
              (λ d. elim d.deleted_at [
                | none ↦ can_view d.classification d.owner_id viewer_id viewer_is_admin
                | some t ↦ false
              ])
              s)
  unfolding list_paginated
  list_paginated-safe limit offset s =
      let kept = keep_if (is_listed viewer_id viewer_is_admin) s in
      let docs = sort_newest (λ d. d.created_at) kept in
      (
        All-take _ limit (drop offset docs) (
            All-drop _ offset docs (
              sort_newest-All (λ d. d.created_at) _ kept
                (All-map (λ d h. is_listed-facts d h) kept
                  (keep_if-true (is_listed viewer_id viewer_is_admin) s)))),
        take-IsNewestFirst _ limit (drop offset docs)
            (drop-IsNewestFirst _ offset docs (sort_newest-IsNewestFirst _ kept)),
        subst (Perm _) (keep_if-may_see s)
            (rw take-length (sort_newest-perm (λ d. d.created_at) kept)),
      )

  -- The total is the number of visible documents, and the length of a page is the smaller of the
  -- limit and what the total leaves behind the offset.
  pub list_paginated-count :
      (limit offset : ℕ) (s : Storage)
      → ((list_paginated limit offset viewer_id viewer_is_admin s).1
          ≡ length (keep_if (is_listed viewer_id viewer_is_admin) s))
        × (length (list_paginated limit offset viewer_id viewer_is_admin s).0
            ≡ min limit ((list_paginated limit offset viewer_id viewer_is_admin s).1 - offset))
  unfolding list_paginated
  list_paginated-count limit offset s =
      let docs =
        sort_newest (λ d. d.created_at) (keep_if (is_listed viewer_id viewer_is_admin) s) in
      (
        length-sort_newest (λ d. d.created_at) _,
        length-take limit (drop offset docs) ∙ ap (min limit) (length-drop offset docs),
      )

  -- Two consecutive pages joined are the one longer page, and the page at offset 0 of the length of
  -- the total is a permutation of the visible documents.
  pub list_paginated-coherent :
      (limit more offset : ℕ) (s : Storage)
      → ((list_paginated limit offset viewer_id viewer_is_admin s).0
            ++ (list_paginated more (offset + limit) viewer_id viewer_is_admin s).0
          ≡ (list_paginated (limit + more) offset viewer_id viewer_is_admin s).0)
        × Perm
            (list_paginated
              (list_paginated limit offset viewer_id viewer_is_admin s).1
              0
              viewer_id
              viewer_is_admin
              s).0
            (keep_if (is_listed viewer_id viewer_is_admin) s)
  unfolding list_paginated
  list_paginated-coherent limit more offset s =
      let kept = keep_if (is_listed viewer_id viewer_is_admin) s in
      let docs = sort_newest (λ d. d.created_at) kept in
      (
        rw (drop-add offset limit docs) (sym (take-add limit more (drop offset docs))),
        rw take-length (sort_newest-perm (λ d. d.created_at) kept),
      )
