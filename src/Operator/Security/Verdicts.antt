-- ===== src/Operator/Security/Verdicts.antt =====
-- The verdicts of `validate_request` and `check_rate_limit`, and the log that they leave.
use sbd_drones_economics.Base.{
  ◌⊎◌, ℕ, ◌<◌, String, ◌≡◌, ◌↔◌, true, false, Option, none, some, List, [], ◌∷◌, ◌++◌, arith,
  eq_iff, if◌then◌else◌, contains, count,
}
use mathlib.Core.List.{append-nil}
use sbd_drones_economics.Operator.Security.{
  PolicyResult, allow, audit, Violation, Context, Log, trusted_components, allowed_roles,
  check_sender_authorization, is_critical_action, validate_critical_action, validate_request,
  check_rate_limit, limit_of, is_recent,
}

-- One of the four roles.
abbrev pub IsKnownRole : String → Type 0
IsKnownRole role =
    (role ≡ "operator") ⊎ (role ≡ "admin") ⊎ (role ≡ "system") ⊎ (role ≡ "aggregator")

-- One of the five critical operations.
abbrev pub IsCritical : String → Type 0
IsCritical action =
    (action ≡ "start_mission")
    ⊎ (action ≡ "abort_mission")
    ⊎ (action ≡ "emergency_landing")
    ⊎ (action ≡ "update_flight_plan")
    ⊎ (action ≡ "override_safety_limits")

-- What the code asks of the sender: one of the four roles, and the administrator's for a critical
-- operation. Whether the sender is registered or authenticated is not asked.
pub record IsAuthorized (c : Context) : Type 0 where
  pub known_role : IsKnownRole c.sender_role
  pub critical_by_admin : IsCritical c.action → c.sender_role ≡ "admin"

IsKnownRole-iff : (role : String) → (contains allowed_roles role ≡ true) ↔ IsKnownRole role
IsKnownRole-iff role = (
  λ h. ground (
    arith,
    eq_iff role "operator",
    eq_iff role "admin",
    eq_iff role "system",
    eq_iff role "aggregator",
  ),
  λ h. ground (
    arith,
    eq_iff role "operator",
    eq_iff role "admin",
    eq_iff role "system",
    eq_iff role "aggregator",
  ),
)

IsCritical-iff : (action : String) → (is_critical_action action ≡ true) ↔ IsCritical action
unfolding is_critical_action
IsCritical-iff action = (
  λ h. ground (
    arith,
    eq_iff action "start_mission",
    eq_iff action "abort_mission",
    eq_iff action "emergency_landing",
    eq_iff action "update_flight_plan",
    eq_iff action "override_safety_limits",
  ),
  λ h. ground (
    arith,
    eq_iff action "start_mission",
    eq_iff action "abort_mission",
    eq_iff action "emergency_landing",
    eq_iff action "update_flight_plan",
    eq_iff action "override_safety_limits",
  ),
)

-- The same, by the code's lists.
IsAuthorized-iff :
    (c : Context)
    → IsAuthorized c ↔ (
        (contains allowed_roles c.sender_role ≡ true)
        × (is_critical_action c.action ≡ true → c.sender_role ≡ "admin"))
IsAuthorized-iff c = (
  λ a. (
    (IsKnownRole-iff c.sender_role).1 a.known_role,
    λ k. a.critical_by_admin ((IsCritical-iff c.action).0 k),
  ),
  λ (known, admin). record {
    known_role = (IsKnownRole-iff c.sender_role).0 known;
    critical_by_admin = λ k. admin ((IsCritical-iff c.action).1 k);
  },
)

abbrev pub verdict : PolicyResult × Option Violation → PolicyResult
verdict (r, v) = r

-- A request passes without a violation exactly if its sender's role is operator, admin, system or
-- aggregator, or admin where the action is one of the five critical ones, and it is addressed to a
-- trusted component; it passes with an audit exactly if all this holds but the last.
pub validate_request_iff :
    (c : Context) (now : ℕ) (log : Log)
    → (((validate_request c now log).0.0 ≡ allow)
        ↔ (IsAuthorized c × (contains trusted_components c.target_component ≡ true)))
      × (((validate_request c now log).0.0 ≡ audit)
          ↔ (IsAuthorized c × (contains trusted_components c.target_component ≡ false)))
unfolding validate_request check_sender_authorization validate_critical_action
validate_request_iff c now log =
    let (lists, authorized) = IsAuthorized-iff c in
    (
      (
        λ h. (
          authorized (ground arith, λ k. ground (arith, eq_iff c.sender_role "admin")),
          ground arith,
        ),
        λ (a, t). ground (arith, lists a, eq_iff c.sender_role "admin"),
      ),
      (
        λ h. (
          authorized (ground arith, λ k. ground (arith, eq_iff c.sender_role "admin")),
          ground arith,
        ),
        λ (a, t). ground (arith, lists a, eq_iff c.sender_role "admin"),
      ),
    )

abbrev pub to_list : Option Violation → Log
to_list none = []
to_list (some v) = v ∷ []

-- The log grows by the violation that is returned, and there is one unless the request is allowed.
pub validate_request-log :
    (c : Context) (now : ℕ) (log : Log)
    → let ((result, violation), after) = validate_request c now log in
      (after ≡ log ++ to_list violation) × ((result ≡ allow) ↔ (violation ≡ none))
unfolding validate_request
validate_request-log c now log = ground (arith, append-nil log)

-- A request is within its rate exactly if the recent requests are fewer than the limit of its
-- action, which is 10 for a critical action and 100 for another.
check_rate_limit_iff :
    (sender action : String) (history : List ℕ) (now : ℕ)
    → ((check_rate_limit sender action history now).0 ≡ true)
      ↔ (count (λ t. is_recent now t) history < (if is_critical_action action then 10 else 100))
unfolding check_rate_limit limit_of
check_rate_limit_iff sender action history now = (λ h. ground arith, λ h. ground arith)
