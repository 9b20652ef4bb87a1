-- ===== src/Base/Sorting.antt =====
-- `ORDER BY` on a text column: insertion sort by the order of code points.
use Prim.Native.Nat.{Ordering}
use Prim.Native.String.{String, compare}
use mathlib.Core.List.{List, [], ◌∷◌}

abbrev pub insert_by : {A : Type 0} → (A → String) → A → List A → List A
insert_by key a [] = a ∷ []
insert_by key a (b ∷ bs) =
    let rest = insert_by key a bs in
    elim (compare (key a) (key b)) [ Ordering.gt ↦ b ∷ rest | _ ↦ a ∷ b ∷ bs ]

abbrev pub sort_by : {A : Type 0} → (A → String) → List A → List A
sort_by key [] = []
sort_by key (a ∷ more) = insert_by key a (sort_by key more)
