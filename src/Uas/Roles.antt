-- ===== src/Uas/Roles.antt =====
-- Roles of shared/topics.py and their checks, shared/tcb/role_policy.py.
use sbd_drones_economics.Base.{String, not, List, [], ◌∷◌, ◌==◌, ◌⊕◌, contains, ◌≡◌, arith, eq_iff}
use sbd_drones_economics.Outcome.{Result, ok, authorization_error, raise_if}

abbrev pub admin : String
admin = "администратор"

abbrev pub developer : String
developer = "разработчик"

abbrev pub operator : String
operator = "эксплуатант"

abbrev pub all : List String
all = admin ∷ developer ∷ operator ∷ []

unfoldable pub require_role : String → String → Result (Unit {0})
require_role actual_role expected_role =
    raise_if (not (actual_role == expected_role))
      (authorization_error ("role " ⊕ expected_role ⊕ " is required"))

unfoldable pub require_developer_or_operator_for_registry : String → Result (Unit {0})
require_developer_or_operator_for_registry actor_role =
    raise_if (not (contains (developer ∷ operator ∷ []) actor_role))
      (authorization_error "role разработчик или эксплуатант is required")

-- The check passes for the expected role alone.
pub require_role-eq_ok :
    (actual expected : String) → require_role actual expected ≡ ok tt → actual ≡ expected
unfolding require_role
require_role-eq_ok actual expected h = ground (arith, eq_iff actual expected)
