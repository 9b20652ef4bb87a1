-- ===== src/Broker/Dispatch.antt =====
-- The thread pools of the buses: the callbacks that wait for a worker thread, and what the clients'
-- callbacks were called with. Several workers take the tasks, in any order.
use sbd_drones_economics.Base.{ℕ, zero, suc, Option, none, some, List, [], ◌∷◌}
use sbd_drones_economics.Broker.Requests.{Message}

-- A callback with the message that it is to be called with.
abbrev pub Task : Type 0 → Type 0
Task C = C × Message

-- The task at a position, and the others.
unfoldable pub pick {ℓ} : {A : Type ℓ} → ℕ → List A → Option (A × List A)
pick n [] = none
pick zero (x ∷ xs) = some (x, xs)
pick (suc n) (x ∷ xs) =
    let others = pick n xs in elim others [ none ↦ none | some (y, ys) ↦ some (y, x ∷ ys) ]
