-- ===== src/Operator/Desk/Assignment.antt =====
-- Which drones the operator gives away.
use sbd_drones_economics.Base.{
  String, ◌≡◌, refl, Bool, true, false, none, some, List, [], ◌∷◌, ◌==◌, lookup, arith, eq_iff, All,
  Option-cases, Bool-cases, inl, inr, lookup-insert, lookup-insert_self, lookup-insert_kept,
}
use sbd_drones_economics.Base.Floats.{Floats}
use sbd_drones_economics.Outcome.{is_ok}
use sbd_drones_economics.Operator.Desk.{
  Drone, new_drone, serve, is_available, Operator, Request, register_drone,
  request_available_drones, select_drone, buy_insurance, register_orvd, send_to_nus, create_order,
  confirm_price, handle_register_drone, handle_request_available_drones, handle_select_drone,
  handle_buy_insurance, handle_register_in_orvd, handle_send_to_nus, handle_create_order,
  handle_confirm_price, handle,
}

module _ (fl : Floats) where
  abbrev pub registers : String → Request fl → Bool
  registers d (register_drone p a) = p.drone_id == d
  registers d _ = false

  handle_select_drone-kept :
      (k o d : String) (x : Drone) (s : Operator fl)
      → lookup d s.registry ≡ some x
      → is_available x ≡ false
      → lookup d (handle_select_drone fl k o s).2.registry ≡ some x
  unfolding handle_select_drone
  handle_select_drone-kept k o d x s e busy = elim (Option-cases (lookup k s.registry)) [
    | inl n ↦ ground (arith, n, e)
    | inr (y, f) ↦ elim (Bool-cases (is_available y)) [
      | inr no1 ↦ ground (arith, f, no1, e)
      | inl free ↦ ground (
        arith,
        f,
        free,
        e,
        busy,
        eq_iff k d,
        lookup-insert k d (record y { status = "assigned"; assigned_order = some o }) s.registry,
      )
    ]
  ]

  handle-kept :
      (r : Request fl) (d : String) (x : Drone) (s : Operator fl)
      → registers d r ≡ false
      → lookup d s.registry ≡ some x
      → is_available x ≡ false
      → lookup d (handle fl r s).2.registry ≡ some x
  unfolding handle handle_register_drone handle_request_available_drones handle_buy_insurance
      handle_register_in_orvd handle_send_to_nus handle_create_order handle_confirm_price
  handle-kept (register_drone p a) d x s new e busy =
      ground (arith, e, lookup-insert_kept p.drone_id d (new_drone fl p s) x s.registry new e)
  handle-kept (request_available_drones b) d x s new e busy = e
  handle-kept (select_drone k o) d x s new e busy = handle_select_drone-kept k o d x s e busy
  handle-kept (buy_insurance act o k c a) d x s new e busy = ground (arith, e)
  handle-kept (register_orvd p a) d x s new e busy = ground (arith, e)
  handle-kept (send_to_nus o) d x s new e busy = e
  handle-kept (create_order c q o b a) d x s new e busy = ground (arith, e)
  handle-kept (confirm_price c o p) d x s new e busy = e

  serve-kept :
      (rs : List (Request fl)) (d : String) (x : Drone) (s : Operator fl)
      → All (λ r. registers d r ≡ false) rs
      → lookup d s.registry ≡ some x
      → is_available x ≡ false
      → lookup d (serve fl rs s).registry ≡ some x
  unfolding serve
  serve-kept [] d x s new e busy = e
  serve-kept (r ∷ rs) d x s new e busy =
      serve-kept rs d x (handle fl r s).2 new.1 (handle-kept r d x s new.0 e busy) busy

  lost :
      (d o : String) (s : Operator fl)
      → lookup d s.registry ≡ none
      → is_ok (handle_select_drone fl d o s).0 ≡ true
      → ⊥
  unfolding handle_select_drone
  lost d o s e won = ground (arith, e, won)

  -- Once a drone was selected for an order, then whatever messages follow that do not register that
  -- drone again: it stays assigned to that order, and every further selection of it is refused.
  pub handle_select_drone_once :
      (d o other : String) (rs : List (Request fl)) (s : Operator fl)
      → is_ok (handle_select_drone fl d o s).0 ≡ true
      → All (λ r. registers d r ≡ false) rs
      → let later = serve fl rs (handle_select_drone fl d o s).2 in
        ((x : Drone) × (lookup d later.registry ≡ some x) × (x.assigned_order ≡ some o))
        × (is_ok (handle_select_drone fl d other later).0 ≡ false)
  unfolding handle_select_drone
  handle_select_drone_once d o other rs s won new = elim (Option-cases (lookup d s.registry)) [
    | inl e ↦ elim (lost d o s e won) [ ]
    | inr (y, e) ↦
        let x = record y { status = "assigned"; assigned_order = some o } in
        let there : lookup d (handle_select_drone fl d o s).2.registry ≡ some x =
          ground (arith, e, won, lookup-insert_self d x s.registry) in
        let still = serve-kept rs d x (handle_select_drone fl d o s).2 new there refl in
        ((x, still, refl), ground (arith, still))
  ]
