-- ===== src/Std/Sort.antt =====
-- Sorting of slices.
pub mod Laws
use tmux_rescue.Common.{Bool, List, [], if◌then◌else◌, list_eq, num_eq, ◌∷◌}

-- `sort_by_key` and `sort_by`, which are stable, with the strict order of the keys.
module _ {A : Type 0} {K : Type 0} (key : A → K) (less : K → K → Bool) where
  -- In front of the first element that is not less.
  unfoldable pub insert_sorted : A → List A → List A
  insert_sorted a [] = a ∷ []
  insert_sorted a (b ∷ bs) =
      let further = insert_sorted a bs in if less (key b) (key a) then b ∷ further else a ∷ b ∷ bs

  unfoldable pub sort_by : List A → List A
  sort_by [] = []
  sort_by (a ∷ as_they_come) = insert_sorted a (sort_by as_they_come)
