-- ===== src/Uas/Purchase/Repeat.antt =====
-- What becomes of a drone on sale over runs of purchases: it is sold once.
use sbd_drones_economics.Base.{
  if◌then◌else◌, ℕ, String, ◌≡◌, refl, sym, subst, Bool, true, false, Option, none, some, List, [],
  ◌∷◌, arith, ◌==◌, eq_iff, lookup, insert, is_some, strip, Option-cases, Bool-cases, inl, inr,
}
use sbd_drones_economics.Outcome.{Exception, ok, err}
use sbd_drones_economics.Outcome.Action.{Action}
use sbd_drones_economics.Uas.Company.{
  PurchaseOrder, Company, Drone, Ports, Registry, own_registry, by_monitor, no_registry, answers,
  raises,
}
use sbd_drones_economics.Uas.Drones.{sold, update_drone_after_purchase}
use sbd_drones_economics.Uas.Drones.Updates.{IsFiled, lookup-update_where}
use sbd_drones_economics.Uas.Purchase.{
  Purchased, purchase, complete, insert_order, new_version, finalize_registry_purchase,
}
use sbd_drones_economics.Uas.Purchase.Checks.{prepare_cases, prepare-Checked, key_of}
use sbd_drones_economics.Uas.Purchase.Sale.{sale_at, hand_over-Keeps}
use sbd_drones_economics.Uas.Purchase.Atomic.{purchase-Settled}

-- Whether a drone is on sale by its status.
abbrev is_on_sale : Option (String × String × String) → Bool
is_on_sale none = false
is_on_sale (some (_, status, _)) = status == "available"

-- An action that puts the drone `k` on sale no more.
abbrev Closes : {A : Type 0} → String → Action Company A → Type 0
Closes k m =
    (c : Company) → is_on_sale (sale_at k c) ≡ false → is_on_sale (sale_at k (m c).1) ≡ false

sold_off :
    (operator dest r_corr : String) (mode : Bool) (version : ℕ) (goals : Option (List String))
    (d : Drone)
    → ((sold operator dest r_corr mode version goals d).status == "available") ≡ false
unfolding sold
sold_off operator dest r_corr true version goals d = refl
sold_off operator dest r_corr false version goals d = refl

update_drone_after_purchase-Closes :
    (serial operator dest r_corr : String) (mode : Bool) (version : ℕ)
    (goals : Option (List String)) (k : String)
    → Closes k (update_drone_after_purchase serial operator dest r_corr mode version goals)
unfolding update_drone_after_purchase
update_drone_after_purchase-Closes serial operator dest r_corr mode version goals k c h =
    elim (Option-cases (lookup k c.drones)) [
      | inl absent ↦ rw lookup-update_where (ground arith)
      | inr (d, e) ↦ elim (Bool-cases (d.serial_number == serial)) [
        | inl same ↦
            rw (lookup-update_where, e, same) (sold_off operator dest r_corr mode version goals d)
        | inr other ↦ rw (lookup-update_where, e, other) (rw e at h)
      ]
    ]

finalize_registry_purchase-Closes :
    (r : Registry) (act : Action Company Unit) (k : String)
    → Closes k act
    → Closes k (finalize_registry_purchase r act)
unfolding finalize_registry_purchase
finalize_registry_purchase-Closes own_registry act k f c h = f c h
finalize_registry_purchase-Closes (by_monitor reads answers d) act k f c h = f c h
finalize_registry_purchase-Closes (by_monitor reads (raises applied e) d) act k f c h =
    ground (arith, f c h)
finalize_registry_purchase-Closes no_registry act k f c h = h

complete-Closes :
    (ports : Ports) (operator serial dest now k : String) (order : PurchaseOrder) (r_corr : String)
    (drone : Drone) (reg : ℕ × Option (List String))
    → Closes k (complete ports operator serial dest now (order, r_corr, drone, reg))
unfolding complete insert_order
complete-Closes ports operator serial dest now k order r_corr drone reg c h =
    let c1 : Company = record c { purchases = insert order.order_id order c.purchases } in
    let sell =
      update_drone_after_purchase serial operator dest r_corr (is_some ports.regulator)
        (new_version reg.0 drone.registration_version) reg.1 in
    let c2 = (finalize_registry_purchase ports.registry sell c1).1 in
    ground (
      arith,
      finalize_registry_purchase-Closes ports.registry sell k
          (update_drone_after_purchase-Closes serial operator dest r_corr (is_some ports.regulator)
            (new_version reg.0 drone.registration_version) reg.1 k)
          c1 h,
      hand_over-Keeps ports operator serial dest now k (order, r_corr, drone, reg) c2,
    )

sold_word :
    (mode : Bool) (serial operator : String)
    → is_on_sale (some (serial, (if mode then "sold_reregistered" else "sold"), operator)) ≡ false
sold_word true serial operator = refl
sold_word false serial operator = refl

-- A purchase that somebody tries.
pub record Attempt : Type 0 where
  pub ports : Ports
  pub order_token : String
  pub corr_token : String
  pub role : String
  pub operator : String
  pub serial : String
  pub destination : String
  pub corr : String
  pub now : String

abbrev pub attempt : Attempt → Action Company Purchased
attempt a =
    purchase a.ports a.order_token a.corr_token a.role a.operator a.serial a.destination a.corr
      a.now

-- The company after the attempts, in their order.
abbrev pub attempts : List Attempt → Company → Company
attempts [] c = c
attempts (a ∷ more) c = attempts more (attempt a c).1

attempt-Closes : (a : Attempt) (k : String) → Closes k (attempt a)
unfolding purchase
attempt-Closes a k c h =
    elim (prepare_cases a.ports a.order_token a.corr_token a.role a.operator a.serial a.corr c) [
      | inr (e, q) ↦ ground arith
      | inl (order, r_corr, drone, reg, q) ↦ ground (
        arith,
        complete-Closes a.ports a.operator a.serial (strip a.destination) a.now k order r_corr drone
            reg c h,
      )
    ]

attempts-Closes :
    (more : List Attempt) (k : String) (c : Company)
    → is_on_sale (sale_at k c) ≡ false
    → is_on_sale (sale_at k (attempts more c)) ≡ false
attempts-Closes [] k c h = h
attempts-Closes (a ∷ more) k c h = attempts-Closes more k (attempt a c).1 (attempt-Closes a k c h)

-- A drone that is not on sale is not sold.
attempt_closed :
    (a : Attempt) (c : Company)
    → key_of a.ports.registry a.serial ≡ a.serial
    → is_on_sale (sale_at a.serial c) ≡ false
    → (e : Exception) × (attempt a c ≡ (err e, c))
unfolding purchase
attempt_closed a c named h =
    elim (prepare_cases a.ports a.order_token a.corr_token a.role a.operator a.serial a.corr c) [
      | inr (e, q) ↦ (e, ground arith)
      | inl (order, r_corr, drone, reg, q) ↦
          let k =
            prepare-Checked a.ports a.order_token a.corr_token a.role a.operator a.serial a.corr c c
              order r_corr drone reg q in
          let there : lookup a.serial c.drones ≡ some drone =
            subst (λ i. lookup i c.drones ≡ some drone) named k.on_record in
          ground (arith, there, k.sellable.available, eq_iff drone.status "available")
    ]

-- Where the drones stand under their serial numbers, and each registry that is asked is in the same
-- process or the serial number has no blanks around it: after a purchase of a drone that succeeded
-- and any further purchases, of whatever drones, whether they succeed or fail, each purchase of that
-- drone is refused, whoever asks, under whatever tokens, and writes nothing.
pub purchase_twice-err :
    (first second : Attempt) (more : List Attempt) (c c' : Company) (p : Purchased)
    → IsFiled c
    → key_of first.ports.registry first.serial ≡ first.serial
    → key_of second.ports.registry second.serial ≡ second.serial
    → second.serial ≡ first.serial
    → attempt first c ≡ (ok p, c')
    → (e : Exception) × (attempt second (attempts more c') ≡ (err e, attempts more c'))
purchase_twice-err first second more c c' p filed named named' same h =
    let (_, _, s) =
      purchase-Settled first.ports first.order_token first.corr_token first.role first.operator
        first.serial first.destination first.corr first.now c c' p filed named h in
    attempt_closed second (attempts more c') named' (
      attempts-Closes more second.serial c' (
        subst (λ k. is_on_sale (sale_at k c') ≡ false) (sym same)
          (subst (λ o. is_on_sale o ≡ false) (sym s.sold_to)
            (sold_word (is_some first.ports.regulator) first.serial first.operator))))
