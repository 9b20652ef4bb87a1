-- ===== src/Uas/Goals/Members.antt =====
-- Membership in the goals that the policies compute.
use sbd_drones_economics.Base.{
  String, ◌≡◌, refl, Bool, ◌&&◌, ◌||◌, List, [], ◌∷◌, arith, ◌==◌, eq_iff, keep, contains,
  insert_by, sort_by,
}
use sbd_drones_economics.Uas.Goals.{distinct, apply_effective_goals_to_drone_goals}

pub contains-insert_by :
    (g x : String) (xs : List String)
    → contains (insert_by (λ y. y) x xs) g ≡ (g == x || contains xs g)
contains-insert_by g x [] = refl
contains-insert_by g x (y ∷ ys) = ground (arith, contains-insert_by g x ys)

pub contains-sort_by :
    (g : String) (xs : List String) → contains (sort_by (λ y. y) xs) g ≡ contains xs g
contains-sort_by g [] = refl
contains-sort_by g (x ∷ xs) =
    ground (arith, contains-insert_by g x (sort_by (λ y. y) xs), contains-sort_by g xs)

pub contains-keep :
    (p : String → Bool) (g : String) (xs : List String)
    → contains (keep p xs) g ≡ (p g && contains xs g)
contains-keep p g [] = ground arith
contains-keep p g (x ∷ xs) = ground (arith, contains-keep p g xs, eq_iff g x)

pub contains-distinct : (g : String) (xs : List String) → contains (distinct xs) g ≡ contains xs g
unfolding distinct
contains-distinct g [] = refl
contains-distinct g (x ∷ xs) = ground (arith, contains-distinct g xs, eq_iff g x)

-- The narrowed goals of a drone are exactly its goals that the regulator still confirms.
contains-apply_effective_goals_to_drone_goals :
    (cur new : List String) (g : String)
    → contains (apply_effective_goals_to_drone_goals cur new) g ≡ (contains new g && contains cur g)
unfolding apply_effective_goals_to_drone_goals
contains-apply_effective_goals_to_drone_goals cur new g = ground (
  arith,
  contains-sort_by g (keep (contains new) (distinct cur)),
  contains-keep (contains new) g (distinct cur),
  contains-distinct g cur,
)
