-- ===== src/Operator/Security.antt =====
-- SecurityMonitorCore of systems/operator/src/security_monitor/src/security_monitor_core.py. Times are
-- whole microseconds.
pub mod Verdicts
pub mod Tallies
pub mod Service
mod Tests
use sbd_drones_economics.Base.{
  ℕ, ◌+◌, ◌-◌, ◌*◌, String, Bool, true, false, not, ◌&&◌, Option, none, some, List, [], ◌∷◌, ◌++◌,
  ◌==◌, ◌⊕◌, Dict, lookup, insert, decimal, if◌then◌else◌, ltb, leb, length, count, contains, last,
  map, or_default,
}

pub data PolicyResult : Type 0 where
  allow deny audit : PolicyResult

pub record Violation : Type 0 where
  pub policy_id : String
  pub policy_name : String
  pub violation_type : String
  pub details : String
  pub severity : String
  pub timestamp : ℕ

pub record Context : Type 0 where
  pub sender_id : String
  pub sender_role : String
  pub action : String
  pub target_component : String

-- `violations_log`; the policies and the trusted components never change.
abbrev pub Log : Type 0
Log = List Violation

abbrev pub trusted_components : List String
trusted_components =
    "fleet_manager" ∷ "mission_planner" ∷ "business_logic" ∷ "security_monitor" ∷ "regulator_client"
    ∷ "developer_client" ∷ []

abbrev pub critical_actions : List String
critical_actions =
    "start_mission" ∷ "abort_mission" ∷ "emergency_landing" ∷ "update_flight_plan"
    ∷ "override_safety_limits" ∷ []

abbrev pub allowed_roles : List String
allowed_roles = "operator" ∷ "admin" ∷ "system" ∷ "aggregator" ∷ []

-- `_check_sender_authorization`
unfoldable pub check_sender_authorization : Context → Bool
check_sender_authorization c = contains allowed_roles c.sender_role

unfoldable pub is_critical_action : String → Bool
is_critical_action action = contains critical_actions action

unfoldable pub validate_critical_action : Context → Bool
validate_critical_action c = c.sender_role == "admin"

abbrev pub unauthorized_sender : Context → (now : ℕ) → Violation
unauthorized_sender c now = record {
  policy_id = "P1";
  policy_name = "Контроль источника команд";
  violation_type = "unauthorized_sender";
  details =
      "Sender " ⊕ c.sender_id ⊕ " with role " ⊕ c.sender_role ⊕ " not authorized for action "
      ⊕ c.action;
  severity = "high";
  timestamp = now;
}

abbrev pub critical_action_denied : Context → (now : ℕ) → Violation
critical_action_denied c now = record {
  policy_id = "P2";
  policy_name = "Защита критических операций";
  violation_type = "critical_action_denied";
  details = "Critical action " ⊕ c.action ⊕ " denied for " ⊕ c.sender_id;
  severity = "critical";
  timestamp = now;
}

abbrev pub untrusted_component : Context → (now : ℕ) → Violation
untrusted_component c now = record {
  policy_id = "P3";
  policy_name = "Целостность компонентов";
  violation_type = "untrusted_component";
  details = "Target component " ⊕ c.target_component ⊕ " is not trusted";
  severity = "medium";
  timestamp = now;
}

-- The result, the violation, and the log with it.
unfoldable pub validate_request :
    Context → (now : ℕ) → Log → (PolicyResult × Option Violation) × Log
validate_request c now log =
    if not (check_sender_authorization c)
    then ((deny, some (unauthorized_sender c now)), log ++ unauthorized_sender c now ∷ [])
    else if is_critical_action c.action && not (validate_critical_action c)
    then ((deny, some (critical_action_denied c now)), log ++ critical_action_denied c now ∷ [])
    else if not (contains trusted_components c.target_component)
    then ((audit, some (untrusted_component c now)), log ++ untrusted_component c now ∷ [])
    else ((allow, none), log)

unfoldable pub limit_of : (action : String) → ℕ
limit_of action = if is_critical_action action then 10 else 100

-- `current_time - t < 120`
unfoldable pub is_recent : (now t : ℕ) → Bool
is_recent now t = ltb now (t + 120_000_000)

unfoldable pub check_rate_limit :
    (sender_id action : String) → (request_history : List ℕ) → (now : ℕ) → Bool × Option String
check_rate_limit sender_id action history now =
    let recent = count (is_recent now) history in
    if leb (limit_of action) recent
    then (
      false,
      some (
          "Rate limit exceeded: "
          ⊕ decimal recent
          ⊕ "/"
          ⊕ decimal (limit_of action)
          ⊕ " requests per minute"),
    )
    else (true, none)

-- `if k not in d: d[k] = 0` and `d[k] += 1`
unfoldable pub tally : (key : String) → Dict ℕ → Dict ℕ
tally key d = insert key (or_default (lookup key d) 0 + 1) d

unfoldable pub tally_all : (Violation → String) → Log → Dict ℕ → Dict ℕ
tally_all key [] d = d
tally_all key (v ∷ log) d = tally_all key log (tally (key v) d)

-- `by_policy` also has each policy's name, which its identifier decides.
pub record Summary : Type 0 where
  pub total_violations : ℕ
  pub by_severity : Dict ℕ
  pub by_policy : Dict ℕ
  pub recent_violations : Log

unfoldable pub get_violations_summary : Log → Summary
get_violations_summary log = record {
  total_violations = length log;
  by_severity = tally_all (λ v. v.severity) log [];
  by_policy = tally_all (λ v. v.policy_id) log [];
  recent_violations = last 10 log;
}
