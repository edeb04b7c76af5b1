-- ===== src/Std/Sort/Laws.antt =====
-- What sorting does to a list: the order of the keys, and the same elements.
use tmux_rescue.Common.{
  All, Bool, Bool-cases, List, [], ap, false, inl, inr, length, list_eq, num_eq, refl, suc, true,
  ◌∙◌, ◌∷◌, ◌≡◌,
}
use tmux_rescue.Std.Sort.{insert_sorted, sort_by}
use tmux_rescue.Std.Utf8.{between}

module _ {A : Type 0} {K : Type 0} (key : A → K) (less : K → K → Bool) where
  -- No element is less than the one in front of it.
  abbrev pub IsSorted : List A → Type 0
  IsSorted [] = Unit
  IsSorted (a ∷ []) = Unit
  IsSorted (a ∷ b ∷ xs) = (less (key b) (key a) ≡ false) × IsSorted (b ∷ xs)

  pub insert_sorted-All :
      (P : A → Type 0) (a : A) (xs : List A) → P a → All P xs → All P (insert_sorted key less a xs)
  unfolding insert_sorted
  insert_sorted-All P a [] p ps = (p, tt)
  insert_sorted-All P a (b ∷ xs) p (q, ps) = elim (Bool-cases (less (key b) (key a))) [
    | inl further ↦ rw (further, insert_sorted) (q, insert_sorted-All P a xs p ps)
    | inr here ↦ rw (here, insert_sorted) (p, (q, ps))
  ]

  pub sort_by-All : (P : A → Type 0) (xs : List A) → All P xs → All P (sort_by key less xs)
  unfolding sort_by
  sort_by-All P [] ps = tt
  sort_by-All P (a ∷ xs) (p, ps) =
      insert_sorted-All P a (sort_by key less xs) p (sort_by-All P xs ps)

  length-insert_sorted :
      (a : A) (xs : List A) → length (insert_sorted key less a xs) ≡ suc (length xs)
  unfolding insert_sorted
  length-insert_sorted a [] = refl
  length-insert_sorted a (b ∷ xs) = elim (Bool-cases (less (key b) (key a))) [
    | inl further ↦ rw (further, insert_sorted, length-insert_sorted a xs) refl
    | inr here ↦ rw (here, insert_sorted) refl
  ]

  pub length-sort_by : (xs : List A) → length (sort_by key less xs) ≡ length xs
  unfolding sort_by
  length-sort_by [] = refl
  length-sort_by (a ∷ xs) =
      length-insert_sorted a (sort_by key less xs) ∙ ap suc (length-sort_by xs)

  module _ (asymmetric : (j k : K) → less j k ≡ true → less k j ≡ false) where
    insert_sorted-IsSorted :
        (a : A) (xs : List A) → IsSorted xs → IsSorted (insert_sorted key less a xs)
    unfolding insert_sorted
    insert_sorted-IsSorted a [] sorted = tt
    insert_sorted-IsSorted a (b ∷ []) sorted = elim (Bool-cases (less (key b) (key a))) [
      | inl further ↦ rw (further, insert_sorted) (asymmetric (key b) (key a) further, tt)
      | inr here ↦ rw (here, insert_sorted) (here, tt)
    ]
    insert_sorted-IsSorted a (b ∷ c ∷ xs) (first, sorted) =
        let rest = insert_sorted-IsSorted a (c ∷ xs) sorted in
        elim (Bool-cases (less (key b) (key a))) [
          | inr here ↦ rw (here, insert_sorted) (here, (first, sorted))
          | inl further ↦ elim (Bool-cases (less (key c) (key a))) [
            | inl on ↦ rw (further, insert_sorted, on) (first, rw (insert_sorted, on) at rest)
            | inr between ↦
                rw (further, insert_sorted, between)
                  (asymmetric (key b) (key a) further, rw (insert_sorted, between) at rest)
          ]
        ]

    pub sort_by-IsSorted : (xs : List A) → IsSorted (sort_by key less xs)
    unfolding sort_by
    sort_by-IsSorted [] = tt
    sort_by-IsSorted (a ∷ xs) = insert_sorted-IsSorted a (sort_by key less xs) (sort_by-IsSorted xs)
