-- ===== src/Operator/Desk.antt =====
-- OperatorComponent of systems/operator/src/operator_component/src/operator_component.py. What another
-- system answers to a request comes with the message, none where it does not answer in time. The
-- missions of the ground station, the texts of payloads that are JSON and the notes to the log are
-- left out.
pub mod Assignment
pub mod Admission
mod Tests
use sbd_drones_economics.Base.{
  ℕ, String, Bool, true, false, not, ◌&&◌, ◌||◌, Option, none, some, List, [], ◌∷◌, ◌++◌, ◌==◌, ◌⊕◌,
  Dict, lookup, insert, values, keep, map, if◌then◌else◌, or_default, strip,
}
use sbd_drones_economics.Base.Floats.{Floats}
use sbd_drones_economics.Outcome.{
  Result, ok, err, Exception, value_error, runtime_error, timeout_error,
}

pub record Drone : Type 0 where
  pub drone_id : String
  pub model : String
  pub capabilities : String
  pub status : String
  pub operator_id : String
  pub assigned_order : Option String

abbrev pub is_available : Drone → Bool
is_available d = d.status == "available"

-- `a or b or ...` on texts
abbrev pub or_text : String → String → String
or_text a b = if a == "" then b else a

pub record DroneForm : Type 0 where
  pub drone_id : String
  pub certificate_id : String
  pub model : String
  pub capabilities : String

module _ (fl : Floats) where
  -- What the handlers read of an answer: `valid` and `premium` of its payload, and its error.
  pub record Answer : Type 0 where
    pub success : Bool
    pub valid : Bool
    pub premium : Option fl.Float
    pub payload : String
    pub error : Option String

  pub record Offer : Type 0 where
    pub order_id : String
    pub operator_id : String
    pub price : fl.Float
    pub premium : fl.Float

  -- What goes out on the bus. The operator's identifier, which each message carries, and the incident
  -- of a report are left out.
  pub data Sent : Type 0 where
    verify_drone_cert : (drone_id certificate_id : String) → Sent
    insurance : (action order_id drone_id : String) → (coverage_amount : fl.Float) → Sent
    register_in_orvd : (drone_id model : String) → (certificate_id : Option String) → Sent
    price_offer : Offer → Sent

  pub data Reply : Type 0 where
    registered : (drone_id : String) → Reply
    drones : List (String × String × fl.Float) → Reply
    assigned : (drone_id order_id : String) → Reply
    insured : (policy : String) → Reply
    incident_processed : (claim : String) → Reply
    registered_in_orvd : (drone_id response : String) → Reply
    sent_to_nus : (order_id : String) → Reply
    nothing : Reply
    offer_sent : (order_id : String) → (price : fl.Float) → Reply
    confirmed : (order_id : String) → (accepted_price : fl.Float) → Reply

  pub record Operator : Type 0 where
    pub component_id : String
    pub registry : Dict Drone

  -- What a handler returns or raises, what it sent, and the operator.
  abbrev pub Handling : Type 0
  Handling = Result Reply × List Sent × Operator

  abbrev pub new_drone : DroneForm → Operator → Drone
  new_drone p s = record {
    drone_id = p.drone_id;
    model = p.model;
    capabilities = p.capabilities;
    status = "available";
    operator_id = s.component_id;
    assigned_order = none;
  }

  abbrev pub confirms : Option Answer → Bool
  confirms none = false
  confirms (some v) = v.success && v.valid

  unfoldable pub handle_register_drone : DroneForm → Option Answer → Operator → Handling
  handle_register_drone p answer s =
      let cert_id = strip p.certificate_id in
      let asked = if cert_id == "" then [] else verify_drone_cert p.drone_id cert_id ∷ [] in
      if p.drone_id == ""
      then (err (value_error "drone_id is required"), [], s)
      else if not (cert_id == "") && not (confirms answer)
      then (err (value_error "regulator rejected drone certificate"), asked, s)
      else (
        ok (registered p.drone_id),
        asked,
        record s { registry = insert p.drone_id (new_drone p s) s.registry },
      )

  unfoldable pub handle_request_available_drones : (budget : Option fl.Float) → Operator → Handling
  handle_request_available_drones budget s =
      let available = keep is_available (values s.registry) in
      (
        ok (
            drones
              (map (λ d. (d.drone_id, d.model, or_default budget (fl.of_int 1000))) available)),
        [],
        s,
      )

  unfoldable pub handle_select_drone : (selected_drone_id order_id : String) → Operator → Handling
  handle_select_drone drone_id order_id s = elim (lookup drone_id s.registry) [
    | none ↦ (err (value_error ("drone " ⊕ drone_id ⊕ " not found")), [], s)
    | some drone ↦
        if not (is_available drone)
        then (
          err (
              value_error
                ("drone " ⊕ drone_id ⊕ " is not available (status: " ⊕ drone.status ⊕ ")")),
          [],
          s,
        )
        else (
          ok (assigned drone_id order_id),
          [],
          record s {
            registry =
                insert drone_id
                  (record drone { status = "assigned"; assigned_order = some order_id }) s.registry;
          },
        )
  ]

  unfoldable pub handle_buy_insurance :
      (action order_id drone_id : String)
      → (coverage_amount : fl.Float) → Option Answer
      → Operator
      → Handling
  handle_buy_insurance action order_id drone_id coverage_amount answer s =
      let sent = insurance action order_id drone_id coverage_amount ∷ [] in
      elim answer [
        | none ↦ (err (timeout_error "insurer did not respond"), sent, s)
        | some a ↦
            if a.success
            then (
              (if action == "report_incident"
                  then ok (incident_processed a.payload)
                  else ok (insured a.payload)),
              sent,
              s,
            )
            else (
              err (runtime_error ("insurance failed: " ⊕ or_default a.error "unknown")),
              sent,
              s,
            )
      ]

  unfoldable pub handle_register_in_orvd : DroneForm → Option Answer → Operator → Handling
  handle_register_in_orvd p answer s =
      let certificate_id = if p.certificate_id == "" then none else some (strip p.certificate_id) in
      let sent = register_in_orvd p.drone_id p.model certificate_id ∷ [] in
      if p.drone_id == "" then (err (value_error "drone_id is required"), [], s) else elim answer [
        | none ↦ (err (timeout_error "ORVD did not respond"), sent, s)
        | some a ↦ if a.success then (ok (registered_in_orvd p.drone_id a.payload), sent, s) else (
          err (runtime_error ("ORVD registration failed: " ⊕ or_default a.error "unknown")),
          sent,
          s,
        )
      ]

  unfoldable pub handle_send_to_nus : (order_id : String) → Operator → Handling
  handle_send_to_nus order_id s = (ok (sent_to_nus order_id), [], s)

  -- The premium that the answer brings, 0 without one that succeeded.
  abbrev pub premium_of : Option Answer → fl.Float
  premium_of none = fl.literal 0 1
  premium_of (some a) = if a.success then or_default a.premium (fl.of_int 0) else fl.literal 0 1

  -- `_handle_create_order`: the first drone that is available, and six copies of one offer. The order's
  -- identifier is the first that is not empty; `budget` is 0 where there is none.
  unfoldable pub handle_create_order :
      (correlation_id request_id payload_order_id : String)
      → (budget : fl.Float) → Option Answer
      → Operator
      → Handling
  handle_create_order correlation_id request_id payload_order_id budget answer s =
      let order_id = or_text correlation_id (or_text request_id payload_order_id) in
      elim (keep is_available (values s.registry)) [
        | [] ↦ (ok nothing, [], s)
        | best ∷ _ ↦
            let base_price =
              if fl.equal budget (fl.of_int 0)
              then fl.literal 1000 1
              else fl.times budget (fl.literal 85 100) in
            let premium = premium_of answer in
            let total_price = fl.add base_price premium in
            let offer = price_offer (record {
              order_id = order_id;
              operator_id = s.component_id;
              price = fl.round total_price 2;
              premium = premium;
            }) in
            (
              ok (offer_sent order_id total_price),
              insurance "mission_insurance" order_id best.drone_id budget
                  ∷ offer
                  ∷ offer
                  ∷ offer
                  ∷ offer
                  ∷ offer
                  ∷ offer
                  ∷ [],
              s,
            )
      ]

  unfoldable pub handle_confirm_price :
      (correlation_id payload_order_id : String) → (accepted_price : fl.Float) → Operator → Handling
  handle_confirm_price correlation_id payload_order_id accepted_price s =
      (ok (confirmed (or_text correlation_id payload_order_id) accepted_price), [], s)

  -- The actions of `_register_handlers`.
  pub data Request : Type 0 where
    register_drone : DroneForm → Option Answer → Request
    request_available_drones : (budget : Option fl.Float) → Request
    select_drone : (selected_drone_id order_id : String) → Request
    buy_insurance :
        (action order_id drone_id : String) → (coverage_amount : fl.Float) → Option Answer → Request
    register_orvd : DroneForm → Option Answer → Request
    send_to_nus : (order_id : String) → Request
    create_order :
        (correlation_id request_id payload_order_id : String)
        → (budget : fl.Float) → Option Answer
        → Request
    confirm_price :
        (correlation_id payload_order_id : String) → (accepted_price : fl.Float) → Request

  unfoldable pub handle : Request → Operator → Handling
  handle (register_drone p a) s = handle_register_drone p a s
  handle (request_available_drones b) s = handle_request_available_drones b s
  handle (select_drone d o) s = handle_select_drone d o s
  handle (buy_insurance act o d c a) s = handle_buy_insurance act o d c a s
  handle (register_orvd p a) s = handle_register_in_orvd p a s
  handle (send_to_nus o) s = handle_send_to_nus o s
  handle (create_order c r o b a) s = handle_create_order c r o b a s
  handle (confirm_price c o p) s = handle_confirm_price c o p s

  -- The operator after the messages, in their order.
  unfoldable pub serve : List Request → Operator → Operator
  serve [] s = s
  serve (r ∷ rs) s = serve rs (handle r s).2
