-- ===== src/Uas/Goals/Canonical.antt =====
-- What `normalize_canonical_security_goals` returns, against a plain description of it.
use sbd_drones_economics.Base.{
  String, ◌≡◌, refl, ◌∙◌, Bool, true, false, not, ◌⊎◌, inl, inr, List, [], ◌∷◌, arith, eq_iff, keep,
  contains, if◌then◌else◌, Bool-cases, All, sym, List-cases,
}
use sbd_drones_economics.Outcome.{ok}
use sbd_drones_economics.Uas.Goals.{
  goal_ids, distinct, insert_goal, sort_goals, stripped, normalize_items,
  normalize_canonical_security_goals,
}

-- The goals that pass, in their order.
abbrev pick : Bool → Bool → Bool → List String
pick a b c =
    let rest = if c then "ЦБ-3" ∷ [] else [] in
    let more = if b then "ЦБ-2" ∷ rest else rest in if a then "ЦБ-1" ∷ more else more

abbrev chosen : List String → List String
chosen xs = keep (contains xs) goal_ids

abbrev pub Canonical : String → Type 0
Canonical g = (g ≡ "ЦБ-1") ⊎ (g ≡ "ЦБ-2") ⊎ (g ≡ "ЦБ-3")

insert_first : (b c : Bool) → insert_goal "ЦБ-1" (pick false b c) ≡ pick true b c
unfolding insert_goal
insert_first true true = refl
insert_first true false = refl
insert_first false true = refl
insert_first false false = refl

insert_second : (a c : Bool) → insert_goal "ЦБ-2" (pick a false c) ≡ pick a true c
unfolding insert_goal
insert_second true true = refl
insert_second true false = refl
insert_second false true = refl
insert_second false false = refl

insert_third : (a b : Bool) → insert_goal "ЦБ-3" (pick a b false) ≡ pick a b true
unfolding insert_goal
insert_third true true = refl
insert_third true false = refl
insert_third false true = refl
insert_third false false = refl

chosen-pick :
    (xs : List String)
    → chosen xs ≡ pick (contains xs "ЦБ-1") (contains xs "ЦБ-2") (contains xs "ЦБ-3")
chosen-pick xs = refl

chosen-cons_old :
    (g : String) (xs : List String) → contains xs g ≡ true → chosen (g ∷ xs) ≡ chosen xs
chosen-cons_old g xs h = ground (arith, eq_iff "ЦБ-1" g, eq_iff "ЦБ-2" g, eq_iff "ЦБ-3" g)

insert_goal-chosen :
    (g : String) (xs : List String)
    → Canonical g
    → contains xs g ≡ false
    → insert_goal g (chosen xs) ≡ chosen (g ∷ xs)
insert_goal-chosen g xs (inl e) h =
    let h' : contains xs "ЦБ-1" ≡ false = rw e at h in
    rw e (ground (arith, insert_first (contains xs "ЦБ-2") (contains xs "ЦБ-3")))
insert_goal-chosen g xs (inr (inl e)) h =
    let h' : contains xs "ЦБ-2" ≡ false = rw e at h in
    rw e (ground (arith, insert_second (contains xs "ЦБ-1") (contains xs "ЦБ-3")))
insert_goal-chosen g xs (inr (inr e)) h =
    let h' : contains xs "ЦБ-3" ≡ false = rw e at h in
    rw e (ground (arith, insert_third (contains xs "ЦБ-1") (contains xs "ЦБ-2")))

sort_goals-distinct : (xs : List String) → All Canonical xs → sort_goals (distinct xs) ≡ chosen xs
unfolding sort_goals distinct
sort_goals-distinct [] h = refl
sort_goals-distinct (x ∷ xs) h = elim (Bool-cases (contains xs x)) [
  | inl old ↦ rw old (sort_goals-distinct xs h.1 ∙ sym (chosen-cons_old x xs old))
  | inr new ↦ rw new (rw (sort_goals-distinct xs h.1) (insert_goal-chosen x xs h.0 new))
]

bad-All : (xs : List String) → keep (λ h. not (contains goal_ids h)) xs ≡ [] → All Canonical xs
bad-All [] e = tt
bad-All (x ∷ xs) e = ground (arith, bad-All xs, eq_iff x "ЦБ-1", eq_iff x "ЦБ-2", eq_iff x "ЦБ-3")

normalize_items-eq-chosen :
    (items : List String) (allow_empty : Bool) {l : List String}
    → normalize_items items allow_empty ≡ ok l
    → (l ≡ chosen items) × All Canonical items
unfolding normalize_items
normalize_items-eq-chosen [] allow_empty h = ground arith
normalize_items-eq-chosen (g ∷ gs) allow_empty h =
    elim (List-cases (keep (λ h. not (contains goal_ids h)) (g ∷ gs))) [
      | inl e ↦
          let all = bad-All (g ∷ gs) e in
          (cc (sort_goals-distinct (g ∷ gs) all, rw (e, normalize_items) at h), all)
      | inr (x, xs, e) ↦ cc (rw (e, normalize_items) at h)
    ]

-- What comes back is the goals among the given texts, blank ones aside, each once and in the order
-- of their numbers; it comes back only if every text is blank or a goal.
pub normalize-eq-chosen :
    (goals : List String) (allow_empty : Bool) {l : List String}
    → normalize_canonical_security_goals goals allow_empty ≡ ok l
    → (l ≡ keep (contains (stripped goals)) goal_ids) × All Canonical (stripped goals)
unfolding normalize_canonical_security_goals
normalize-eq-chosen goals allow_empty h = normalize_items-eq-chosen (stripped goals) allow_empty h
