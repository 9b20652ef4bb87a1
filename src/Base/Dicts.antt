-- ===== src/Base/Dicts.antt =====
-- What is found in a dictionary after a change.
use Prim.Native.String.{String}
use mathlib.Core.Path.{◌≡◌, sym, subst, ◌∙◌}
use mathlib.Core.Logic.{◌≢◌, ◌⊎◌, inl, inr}
use mathlib.Core.Bool.{false}
use mathlib.Core.Option.{none, some, some-injective}
use mathlib.Core.List.{[], ◌∷◌}
use native.Mathlib.Omega.{arith}
use text.Mathlib.Text.{◌==◌}
use text.Mathlib.TextEquality.{eq_iff}
use sbd_drones_economics.Base.Tests.{Bool-cases}
use sbd_drones_economics.Base.Lists.{
  Dict, lookup, insert, erase, All, IsKeyed, lookup-insert, lookup-erase_ne, lookup-erase_self,
}

pub All-lookup :
    {V : Type 0} (P : String × V → Type 0) (k : String) (v : V) (d : Dict V)
    → All P d
    → lookup k d ≡ some v
    → P (k, v)
All-lookup P k v [] h e = elim (none-ne e) [ ]
  where
    none-ne : none ≡ some v → ⊥
    none-ne f = ground arith
All-lookup P k v ((j, w) ∷ d) h e = elim (Bool-cases (j == k)) [
  | inl same ↦ subst P (ground (arith, eq_iff j k, same, e)) h.0
  | inr ne ↦ All-lookup P k v d h.1 (ground (arith, ne, e))
]

pub insert-cases :
    {V : Type 0} (k i : String) (v p : V) (d : Dict V)
    → lookup i (insert k v d) ≡ some p
    → ((i ≡ k) × (v ≡ p)) ⊎ ((i ≢ k) × (lookup i d ≡ some p))
insert-cases k i v p d e = elim (Bool-cases (k == i)) [
  | inl same ↦ inl (
    ground (arith, eq_iff k i, same),
    some-injective _ _ (sym (rw same at (lookup-insert k i v d)) ∙ e),
  )
  | inr ne ↦
      inr
        ((λ same. ground (arith, eq_iff k i, ne, same)), sym (rw ne at (lookup-insert k i v d)) ∙ e)
]

pub lookup-erase_kept :
    {V : Type 0} (k i : String) (p : V) (d : Dict V)
    → IsKeyed d
    → lookup i (erase k d) ≡ some p
    → lookup i d ≡ some p
lookup-erase_kept k i p d keyed e = elim (Bool-cases (k == i)) [
  | inl same ↦ ground (arith, eq_iff k i, same, lookup-erase_self k d keyed, e)
  | inr ne ↦ sym (lookup-erase_ne k i d (λ same. ground (arith, eq_iff k i, ne, same))) ∙ e
]

pub lookup-insert_kept :
    {V : Type 0} (i id : String) (x v : V) (d : Dict V)
    → (i == id) ≡ false
    → lookup id d ≡ some v
    → lookup id (insert i x d) ≡ some v
lookup-insert_kept i id x v d ne e = ground (arith, lookup-insert i id x d)

pub lookup-insert_ne :
    {V : Type 0} (k j : String) (v : V) (d : Dict V)
    → (k == j) ≡ false
    → lookup j (insert k v d) ≡ lookup j d
lookup-insert_ne k j v d ne = ground (arith, lookup-insert k j v d)

pub lookup-erase_other :
    {V : Type 0} (k j : String) (d : Dict V) → (k == j) ≡ false → lookup j (erase k d) ≡ lookup j d
lookup-erase_other k j d ne = lookup-erase_ne k j d (λ e. ground (arith, eq_iff k j))
