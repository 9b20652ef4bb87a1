-- ===== src/Uas/Goals.antt =====
-- Security goals: shared/tcb/cb_constants.py and shared/tcb/vulnerability_policy.py. A Python set of
-- texts is the list of its elements without repetition.
pub mod Canonical
pub mod Members
use Prim.Native.String.{compare}
use Prim.Native.Nat.{Ordering}
use sbd_drones_economics.Base.{
  ℕ, String, Bool, not, List, [], ◌∷◌, ◌==◌, map, keep, contains, sort_by, if◌then◌else◌, strip,
  leb,
}
use sbd_drones_economics.Outcome.{Result, ok, err, value_error}

abbrev pub goal_ids : List String
goal_ids = "ЦБ-1" ∷ "ЦБ-2" ∷ "ЦБ-3" ∷ []

-- `_GOAL_ORDER[g]`; only canonical goals are looked up.
abbrev pub goal_order : String → ℕ
goal_order g = if g == "ЦБ-1" then 0 else if g == "ЦБ-2" then 1 else 2

-- `{x for x in xs}`
unfoldable pub distinct : List String → List String
distinct [] = []
distinct (x ∷ xs) = let rest = distinct xs in if contains xs x then rest else x ∷ rest

unfoldable pub insert_goal : String → List String → List String
insert_goal g [] = g ∷ []
insert_goal g (h ∷ hs) =
    let rest = insert_goal g hs in
    if leb (goal_order g) (goal_order h) then g ∷ h ∷ hs else h ∷ rest

-- `sorted(goals, key=lambda x: _GOAL_ORDER[x])`
unfoldable pub sort_goals : List String → List String
unfolding insert_goal
sort_goals [] = []
sort_goals (g ∷ gs) = insert_goal g (sort_goals gs)

abbrev pub stripped : List String → List String
stripped goals = keep (λ g. not (g == "")) (map strip goals)

-- The checks on the texts that are not blank. The message lists the allowed goals; the unknown ones
-- in it are left out.
unfoldable pub normalize_items : List String → (allow_empty : Bool) → Result (List String)
unfolding distinct sort_goals
normalize_items [] allow_empty =
    if allow_empty then ok [] else err (value_error "security_goals are required")
normalize_items (g ∷ gs) allow_empty = elim (keep (λ h. not (contains goal_ids h)) (g ∷ gs)) [
  | [] ↦ ok (sort_goals (distinct (g ∷ gs)))
  | _ ↦ err (value_error "unknown security goal id(s)")
]

unfoldable pub normalize_canonical_security_goals :
    List String → (allow_empty : Bool) → Result (List String)
unfolding normalize_items
normalize_canonical_security_goals goals allow_empty = normalize_items (stripped goals) allow_empty

unfoldable pub apply_effective_goals_to_drone_goals :
    (current_drone_goals new_effective_goals : List String) → List String
unfolding distinct
apply_effective_goals_to_drone_goals current_drone_goals new_effective_goals =
    sort_by (λ g. g) (keep (contains new_effective_goals) (distinct current_drone_goals))
