-- ===== src/Uas/Monitor.antt =====
-- SecurityMonitorComponent of shared/security_monitor.py. The set of policies is a list; the
-- data that a message carries is their JSON text, and the answer of the bus to a request is a parameter.
pub mod Denial
mod Tests
use sbd_drones_economics.Base.{
  ℕ, String, Bool, true, false, not, ◌&&◌, ◌||◌, Option, none, some, List, [], ◌∷◌, ◌++◌, ◌==◌,
  if◌then◌else◌, length, keep, strip,
}

-- `PolicyKey`
pub record Policy : Type 0 where
  pub sender : String
  pub topic : String
  pub action : String

-- `==` on two policies
abbrev pub is_same : Policy → Policy → Bool
is_same p q = p.sender == q.sender && p.topic == q.topic && p.action == q.action

-- `policy in self._policies`
abbrev pub has : Policy → List Policy → Bool
has p [] = false
has p (q ∷ qs) = is_same p q || has p qs

-- What `_is_allowed` asks of one policy.
unfoldable pub matches : (sender target_topic target_action : String) → Policy → Bool
matches sender topic action p =
    p.sender == sender
    && (p.topic == "*" || p.topic == topic)
    && (p.action == "*" || p.action == action)

abbrev pub any_matches : (sender target_topic target_action : String) → List Policy → Bool
any_matches sender topic action [] = false
any_matches sender topic action (p ∷ ps) =
    let rest = any_matches sender topic action ps in
    if matches sender topic action p then true else rest

unfoldable pub is_allowed : (sender target_topic target_action : String) → List Policy → Bool
is_allowed sender topic action policies =
    if has (record { sender = sender; topic = topic; action = action }) policies
    then true
    else any_matches sender topic action policies

abbrev pub inbound : String
inbound = "ipc_inbound_request"

-- A message to the monitor: its sender and, in its payload, either a target or a policy; absent
-- texts are empty.
pub data Request : Type 0 where
  proxy_request : (sender target_topic target_action : String) → String → Request
  proxy_publish : (sender target_topic target_action : String) → String → Request
  set_policy : (sender policy_sender policy_topic policy_action : String) → Request
  remove_policy : (sender policy_sender policy_topic policy_action : String) → Request
  clear_policies : (sender : String) → Request
  list_policies : Request

pub data Reply : Type 0 where
  no_target_in_payload : Reply
  policy_denied : (sender target_topic target_action : String) → Reply
  monitor_inbound_denied : (target_topic target_action : String) → Reply
  target_timeout : (target_topic : String) → Reply
  target_response : (target_topic target_action : String) → String → Reply
  nothing : Reply
  published : Bool → Reply
  forbidden : Reply
  invalid_policy : Reply
  updated : Policy → Reply
  removed : Bool → Policy → Reply
  cleared : ℕ → Reply
  policies : List Policy → Reply

-- What the monitor has put on the bus.
pub record Sent : Type 0 where
  pub topic : String
  pub action : String
  pub payload : String

pub record Monitor : Type 0 where
  pub topic : String
  pub policy_admin_sender : String
  pub policies : List Policy
  pub sent : List Sent

-- The bus: an answer to a request, or none in time; whether a message was published.
pub record Bus : Type 0 where
  pub request : (topic action : String) → String → Option String
  pub publish : (topic action : String) → String → Bool

unfoldable pub can_manage_policies : (sender : String) → Monitor → Bool
can_manage_policies sender m = not (m.policy_admin_sender == "") && sender == m.policy_admin_sender

-- `_extract_target`
unfoldable pub extract_target : (topic action : String) → Option (String × String)
extract_target topic action =
    if strip topic == "" || strip action == "" then none else some (strip topic, strip action)

unfoldable pub policy_from_payload : (sender topic action : String) → Option Policy
policy_from_payload sender topic action =
    if strip sender == "" || strip topic == "" || strip action == ""
    then none
    else some (record { sender = strip sender; topic = strip topic; action = strip action })

module _ (bus : Bus) where
  abbrev pub send : (topic action : String) → String → Monitor → Monitor
  send topic action payload m = record m {
    sent = m.sent ++ record { topic = topic; action = action; payload = payload } ∷ [];
  }

  unfoldable pub handle_proxy_request :
      (sender topic action : String) → String → Monitor → Reply × Monitor
  handle_proxy_request sender topic action payload m = elim (extract_target topic action) [
    | none ↦ (no_target_in_payload, m)
    | some (t, a) ↦
        if not (is_allowed (strip sender) t a m.policies)
        then (policy_denied (strip sender) t a, m)
        else if not (is_allowed m.topic t inbound m.policies)
        then (monitor_inbound_denied t a, m)
        else elim (bus.request t a payload) [
          | none ↦ (target_timeout t, send t a payload m)
          | some response ↦ (target_response t a response, send t a payload m)
        ]
  ]

  unfoldable pub handle_proxy_publish :
      (sender topic action : String) → String → Monitor → Reply × Monitor
  handle_proxy_publish sender topic action payload m = elim (extract_target topic action) [
    | none ↦ (nothing, m)
    | some (t, a) ↦
        if not (is_allowed (strip sender) t a m.policies)
        then (nothing, m)
        else (published (bus.publish t a payload), send t a payload m)
  ]

  unfoldable pub handle_set_policy : (sender s t a : String) → Monitor → Reply × Monitor
  handle_set_policy sender s t a m =
      if not (can_manage_policies (strip sender) m)
      then (forbidden, m)
      else elim (policy_from_payload s t a) [
        | none ↦ (invalid_policy, m)
        | some p ↦ (
          updated p,
          record m { policies = if has p m.policies then m.policies else p ∷ m.policies },
        )
      ]

  unfoldable pub handle_remove_policy : (sender s t a : String) → Monitor → Reply × Monitor
  handle_remove_policy sender s t a m =
      if not (can_manage_policies (strip sender) m)
      then (forbidden, m)
      else elim (policy_from_payload s t a) [
        | none ↦ (invalid_policy, m)
        | some p ↦ (
          removed (has p m.policies) p,
          record m { policies = keep (λ q. not (is_same p q)) m.policies },
        )
      ]

  unfoldable pub handle_clear_policies : (sender : String) → Monitor → Reply × Monitor
  handle_clear_policies sender m =
      if not (can_manage_policies (strip sender) m)
      then (forbidden, m)
      else (cleared (length m.policies), record m { policies = [] })

  unfoldable pub handle : Request → Monitor → Reply × Monitor
  handle (proxy_request sender t a payload) m = handle_proxy_request sender t a payload m
  handle (proxy_publish sender t a payload) m = handle_proxy_publish sender t a payload m
  handle (set_policy sender s t a) m = handle_set_policy sender s t a m
  handle (remove_policy sender s t a) m = handle_remove_policy sender s t a m
  handle (clear_policies sender) m = handle_clear_policies sender m
  handle list_policies m = (policies m.policies, m)

  -- The monitor after the messages, in their order.
  unfoldable pub serve : List Request → Monitor → Monitor
  serve [] m = m
  serve (r ∷ rs) m = serve rs (handle r m).1
