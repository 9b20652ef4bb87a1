-- ===== src/Operator/Security/Service/Counts.antt =====
-- How the metrics, the audit and the core's log agree.
use sbd_drones_economics.Base.{
  subst, sym, true, false, not, ℕ, String, ◌≡◌, refl, ap, Bool, Option, none, some, List, [], ◌∷◌,
  ◌++◌, arith, ◌==◌, Dict, lookup, length, length-append, count, or_default, count-append,
  Bool-cases, inl, inr,
}
use mathlib.Core.List.{append-nil, append_assoc}
use sbd_drones_economics.Operator.Security.{
  PolicyResult, Violation, Context, Log, validate_request, check_rate_limit, tally, tally_all,
}
use sbd_drones_economics.Operator.Security.Verdicts.{to_list, validate_request-log}
use sbd_drones_economics.Operator.Security.Tallies.{tally_all-counts}
use sbd_drones_economics.Operator.Security.Service.{
  Message, Service, Call, new_service, update_metrics, tally_violation, notify, remember, settle,
  process_request, serve, entry, Reply, is_allow, is_deny, is_audit, history_of, rate_violation,
}
use sbd_drones_economics.Operator.Security.Service.Rate.{is_rate_refusal}

tally_all-append :
    (key : Violation → String) (log : Log) (v : Violation) (d : Dict ℕ)
    → tally_all key (log ++ v ∷ []) d ≡ tally (key v) (tally_all key log d)
unfolding tally_all
tally_all-append key [] v d = refl
tally_all-append key (w ∷ log) v d = tally_all-append key log v (tally (key w) d)

tally_all-violation :
    (key : Violation → String) (log : Log) (v : Option Violation)
    → tally_all key (log ++ to_list v) [] ≡ tally_violation key v (tally_all key log [])
tally_all-violation key log none = ap (λ l. tally_all key l []) (append-nil log)
tally_all-violation key log (some v) = tally_all-append key log v []

abbrev pub is_allowed_reply : Reply → Bool
is_allowed_reply Reply.allowed = true
is_allowed_reply _ = false

abbrev pub is_audited_reply : Reply → Bool
is_audited_reply (Reply.audited warning) = true
is_audited_reply _ = false

-- A refusal by another policy than that of the rates.
abbrev pub is_denied_reply : Reply → Bool
is_denied_reply (Reply.refused reason details policy) = not (reason == "rate_limit_exceeded")
is_denied_reply _ = false

-- The answers to the messages, in their order.
unfoldable pub replies : List Call → Service → List Reply
replies [] s = []
replies ((m, checked, now) ∷ calls) s =
    (process_request m checked now s).0 ∷ replies calls (process_request m checked now s).1

-- What the service has counted after these answers: each that is not a refusal for the rate once,
-- under its verdict and in the audit, and the violations as the core's log has them.
pub record IsConsistent (given : List Reply) (s : Service) : Type 0 where
  pub total : s.metrics.total_requests ≡ count (λ r. not (is_rate_refusal r)) given
  pub allowed : s.metrics.allowed_requests ≡ count is_allowed_reply given
  pub audits : s.metrics.audited_requests ≡ count is_audited_reply given
  pub denied : s.metrics.denied_requests ≡ count is_denied_reply given
  pub by_policy : s.metrics.violations_by_policy ≡ tally_all (λ v. v.policy_id) s.violations_log []
  pub by_severity :
      s.metrics.violations_by_severity ≡ tally_all (λ v. v.severity) s.violations_log []
  pub uncounted : count (λ v. v.policy_id == "P4") s.violations_log ≡ 0
  pub audited : length s.audit_log ≡ count (λ r. not (is_rate_refusal r)) given

settle-fields :
    (m : Message) (r : PolicyResult) (v : Option Violation) (s : Service)
    → let after = (settle m r v s).1 in
      (after.metrics ≡ update_metrics r v s.metrics)
      × (after.violations_log ≡ s.violations_log)
      × (after.audit_log ≡ s.audit_log ++ entry m r v ∷ [])
unfolding settle notify
settle-fields m r v s = ground arith

-- A verdict, its violation and the answer belong together.
abbrev IsVerdict : PolicyResult → Option Violation → Reply → Type 0
IsVerdict r v reply =
    (is_allowed_reply reply ≡ is_allow r)
    × (is_audited_reply reply ≡ is_audit r)
    × (is_denied_reply reply ≡ is_deny r)
    × (is_rate_refusal reply ≡ false)

settle-IsConsistent :
    (m : Message) (r : PolicyResult) (v : Option Violation) (log : Log) (given : List Reply)
    (s : Service)
    → IsConsistent given s
    → log ≡ s.violations_log ++ to_list v
    → count (λ v. v.policy_id == "P4") (to_list v) ≡ 0
    → IsVerdict r v (settle m r v (record s { violations_log = log })).0
    → IsConsistent
        (given ++ (settle m r v (record s { violations_log = log })).0 ∷ [])
        (settle m r v (record s { violations_log = log })).1
unfolding update_metrics
settle-IsConsistent m r v log given s c e none_p4 verdict =
    let before = record s { violations_log = log } in
    let reply = (settle m r v before).0 in
    let fields = settle-fields m r v before in
    record {
      total =
          ground (
            arith,
            fields,
            c.total,
            count-append (λ r. not (is_rate_refusal r)) given (reply ∷ []),
          );
      allowed = ground (arith, fields, c.allowed, count-append is_allowed_reply given (reply ∷ []));
      audits = ground (arith, fields, c.audits, count-append is_audited_reply given (reply ∷ []));
      denied = ground (arith, fields, c.denied, count-append is_denied_reply given (reply ∷ []));
      by_policy = ground (arith, fields, tally_all-violation (λ w. w.policy_id) s.violations_log v);
      by_severity =
          ground (arith, fields, tally_all-violation (λ w. w.severity) s.violations_log v);
      uncounted =
          ground
            (arith, fields, count-append (λ w. w.policy_id == "P4") s.violations_log (to_list v));
      audited = ground (
        arith,
        fields,
        c.audited,
        length-append s.audit_log (entry m r v ∷ []),
        count-append (λ r. not (is_rate_refusal r)) given (reply ∷ []),
      );
    }

remember-IsConsistent :
    (m : Message) (given : List Reply) (s : Service)
    → IsConsistent given s
    → IsConsistent given (remember m s)
unfolding remember
remember-IsConsistent m given s c = record {
  total = c.total;
  allowed = c.allowed;
  audits = c.audits;
  denied = c.denied;
  by_policy = c.by_policy;
  by_severity = c.by_severity;
  uncounted = c.uncounted;
  audited = c.audited;
}

-- A refusal for the rate leaves every count.
refuse-IsConsistent :
    (c : Context) (v : Option Violation) (severity details policy : String) (given : List Reply)
    (s : Service)
    → IsConsistent given s
    → IsConsistent
        (given ++ Reply.refused "rate_limit_exceeded" details policy ∷ [])
        (notify c v severity s)
unfolding notify
refuse-IsConsistent c v severity details policy given s k =
    let reply = Reply.refused "rate_limit_exceeded" details policy in
    record {
      total =
          ground (arith, k.total, count-append (λ r. not (is_rate_refusal r)) given (reply ∷ []));
      allowed = ground (arith, k.allowed, count-append is_allowed_reply given (reply ∷ []));
      audits = ground (arith, k.audits, count-append is_audited_reply given (reply ∷ []));
      denied = ground (arith, k.denied, count-append is_denied_reply given (reply ∷ []));
      by_policy = ground (arith, k.by_policy);
      by_severity = ground (arith, k.by_severity);
      uncounted = ground (arith, k.uncounted);
      audited =
          ground (arith, k.audited, count-append (λ r. not (is_rate_refusal r)) given (reply ∷ []));
    }

validate_request-uncounted :
    (c : Context) (now : ℕ) (log : Log)
    → count (λ v. v.policy_id == "P4") (to_list (validate_request c now log).0.1) ≡ 0
unfolding validate_request
validate_request-uncounted c now log = ground arith

validate_request-IsVerdict :
    (m : Message) (now : ℕ) (log : Log) (s : Service)
    → let ((result, violation), after) = validate_request m.context now log in
      IsVerdict result violation (settle m result violation s).0
unfolding validate_request settle
validate_request-IsVerdict m now log s = (ground arith, ground arith, ground arith, ground arith)

process_request-IsConsistent :
    (m : Message) (checked now : ℕ) (given : List Reply) (s : Service)
    → IsConsistent given s
    → IsConsistent
        (given ++ (process_request m checked now s).0 ∷ [])
        (process_request m checked now s).1
unfolding process_request
process_request-IsConsistent m checked now given s k =
    let s1 = remember m s in
    let k1 = remember-IsConsistent m given s k in
    let (rate_ok, rate_msg) =
      check_rate_limit m.context.sender_id m.context.action (history_of m.context.sender_id s1)
        checked in
    let ((result, violation), log) = validate_request m.context now s1.violations_log in
    elim (Bool-cases rate_ok) [
      | inl within ↦ rw within (
          settle-IsConsistent m result violation log given s1 k1
            (validate_request-log m.context now s1.violations_log).0
            (validate_request-uncounted m.context now s1.violations_log)
            (validate_request-IsVerdict m now s1.violations_log
              (record s1 { violations_log = log })))
      | inr beyond ↦ rw beyond (
          refuse-IsConsistent m.context (some (rate_violation (or_default rate_msg "") m))
            "critical" (or_default rate_msg "") "P4" given s1 k1)
    ]

serve_keeps :
    (calls : List Call) (given : List Reply) (s : Service)
    → IsConsistent given s
    → IsConsistent (given ++ replies calls s) (serve calls s)
unfolding serve replies
serve_keeps [] given s k = subst (λ l. IsConsistent l s) (sym (append-nil given)) k
serve_keeps ((m, checked, now) ∷ calls) given s k =
    let (reply, s1) = process_request m checked now s in
    subst (λ l. IsConsistent l (serve calls s1))
      (append_assoc given (reply ∷ []) (replies calls s1))
      (serve_keeps calls (given ++ reply ∷ []) s1
        (process_request-IsConsistent m checked now given s k))

tally_nothing : (key : Violation → String) → ◌≡◌ {A = Dict ℕ} [] (tally_all key [] [])
unfolding tally_all
tally_nothing key = refl

-- From the start of the service, after any messages: of the answers, each that is not a refusal for
-- the rate is counted once in the total and once under its verdict, and has one entry in the audit;
-- the metrics count the violations as the core's log does; and no refusal for the rate is counted
-- or in that log.
pub serve-IsConsistent :
    (calls : List Call) (enabled : Bool) (days : ℕ)
    → IsConsistent
        (replies calls (new_service enabled days))
        (serve calls (new_service enabled days))
serve-IsConsistent calls enabled days = serve_keeps calls [] (new_service enabled days) (record {
  total = refl;
  allowed = refl;
  audits = refl;
  denied = refl;
  by_policy = tally_nothing (λ v. v.policy_id);
  by_severity = tally_nothing (λ v. v.severity);
  audited = refl;
  uncounted = refl;
})

-- From the start of the service, after any messages, the metrics count no violation of the policy
-- P4 of request rates, on which a recommendation of the report rests.
serve_rate_uncounted :
    (calls : List Call) (enabled : Bool) (days : ℕ)
    → or_default
        (lookup "P4" (serve calls (new_service enabled days)).metrics.violations_by_policy)
        0
      ≡ 0
serve_rate_uncounted calls enabled days =
    let s = serve calls (new_service enabled days) in
    let k = serve-IsConsistent calls enabled days in
    ground (
      arith,
      k.by_policy,
      k.uncounted,
      tally_all-counts (λ v. v.policy_id) "P4" s.violations_log [],
    )
