-- ===== src/Operator/Security/Service.antt =====
-- SecurityMonitorService of systems/operator/src/security_monitor/src/security_monitor_service.py over
-- its core. Times are whole microseconds; the clock is read at `checked` and at `now`. The parts that
-- write files and format dates are left out.
pub mod Counts
pub mod Rate
mod Tests
use sbd_drones_economics.Base.{
  ℕ, ◌+◌, ◌*◌, String, Bool, true, false, not, ◌&&◌, ◌||◌, Option, none, some, is_some, List, [],
  ◌∷◌, ◌++◌, ◌==◌, ◌⊕◌, Dict, lookup, insert, erase, if◌then◌else◌, ltb, leb, eqb, length, keep,
  map, or_default, values, decimal,
}
use sbd_drones_economics.Operator.Security.{
  PolicyResult, allow, deny, audit, Violation, Context, Log, validate_request, check_rate_limit,
  tally,
}

-- What `_extract_security_context` reads of a message. The time stamp is the sender's own.
pub record Message : Type 0 where
  pub context : Context
  pub timestamp : ℕ
  pub trace_id : Option String

pub record AuditEntry : Type 0 where
  pub timestamp : ℕ
  pub trace_id : String
  pub sender_id : String
  pub action : String
  pub target : String
  pub result : PolicyResult
  pub violation : Option Violation

pub record Metrics : Type 0 where
  pub total_requests : ℕ
  pub allowed_requests : ℕ
  pub denied_requests : ℕ
  pub audited_requests : ℕ
  pub violations_by_policy : Dict ℕ
  pub violations_by_severity : Dict ℕ

pub record Notification : Type 0 where
  pub severity : String
  pub violation : Violation
  pub context : Context

pub record Service : Type 0 where
  pub violations_log : Log
  pub audit_log : List AuditEntry
  pub request_history : Dict (List ℕ)
  pub metrics : Metrics
  pub notification_queue : List Notification
  pub enable_notifications : Bool
  pub audit_retention_days : ℕ

-- The service as it starts.
abbrev pub new_metrics : Metrics
new_metrics = record {
  total_requests = 0;
  allowed_requests = 0;
  denied_requests = 0;
  audited_requests = 0;
  violations_by_policy = [];
  violations_by_severity = [];
}

abbrev pub new_service : (enable_notifications : Bool) → (audit_retention_days : ℕ) → Service
new_service enabled days = record {
  violations_log = [];
  audit_log = [];
  request_history = [];
  metrics = new_metrics;
  notification_queue = [];
  enable_notifications = enabled;
  audit_retention_days = days;
}

pub data Reply : Type 0 where
  allowed : Reply
  audited : (warning : String) → Reply
  refused : (reason details policy : String) → Reply

abbrev pub is_allow : PolicyResult → Bool
is_allow PolicyResult.allow = true
is_allow _ = false

abbrev pub is_deny : PolicyResult → Bool
is_deny PolicyResult.deny = true
is_deny _ = false

abbrev pub is_audit : PolicyResult → Bool
is_audit PolicyResult.audit = true
is_audit _ = false

abbrev pub tally_violation : (Violation → String) → Option Violation → Dict ℕ → Dict ℕ
tally_violation key none d = d
tally_violation key (some v) d = tally (key v) d

abbrev count_if : Bool → ℕ → ℕ
count_if b n = if b then n + 1 else n

unfoldable pub update_metrics : PolicyResult → Option Violation → Metrics → Metrics
update_metrics result violation m = record {
  total_requests = m.total_requests + 1;
  allowed_requests = count_if (is_allow result) m.allowed_requests;
  denied_requests = count_if (is_deny result) m.denied_requests;
  audited_requests = count_if (is_audit result) m.audited_requests;
  violations_by_policy = tally_violation (λ v. v.policy_id) violation m.violations_by_policy;
  violations_by_severity = tally_violation (λ v. v.severity) violation m.violations_by_severity;
}

-- `if self.enable_notifications: await self._send_notification(...)`
unfoldable pub notify : Context → Option Violation → (severity : String) → Service → Service
notify context none severity s = s
notify context (some v) severity s =
    if s.enable_notifications
    then record s {
      notification_queue =
          s.notification_queue
          ++ record { severity = severity; violation = v; context = context } ∷ [];
    }
    else s

abbrev pub history_of : (sender_id : String) → Service → List ℕ
history_of sender_id s = or_default (lookup sender_id s.request_history) []

-- `self.request_history[sender_id].append(context.timestamp)`
unfoldable pub remember : Message → Service → Service
remember m s =
    let sender = m.context.sender_id in
    record s {
      request_history = insert sender (history_of sender s ++ m.timestamp ∷ []) s.request_history;
    }

abbrev pub rate_violation : (details : String) → Message → Violation
rate_violation details m = record {
  policy_id = "P4";
  policy_name = "Контроль частоты запросов";
  violation_type = "rate_limit_exceeded";
  details = details;
  severity = "medium";
  timestamp = m.timestamp;
}

abbrev pub entry : Message → PolicyResult → Option Violation → AuditEntry
entry m result violation = record {
  timestamp = m.timestamp;
  trace_id = (let t = or_default m.trace_id "" in if t == "" then "no-trace" else t);
  sender_id = m.context.sender_id;
  action = m.context.action;
  target = m.context.target_component;
  result = result;
  violation = violation;
}

-- What follows the core's verdict: the metrics, the audit and the answer.
unfoldable pub settle : Message → PolicyResult → Option Violation → Service → Reply × Service
unfolding update_metrics notify
settle m result violation s =
    let s1 = record s {
      metrics = update_metrics result violation s.metrics;
      audit_log = s.audit_log ++ entry m result violation ∷ [];
    } in
    elim violation [
      | none ↦ (allowed, s1)
      | some v ↦
          if is_deny result
          then (
            refused v.violation_type v.details v.policy_id,
            notify m.context (some v) "critical" s1,
          )
          else (audited v.details, notify m.context (some v) "warning" s1)
    ]

unfoldable pub process_request : Message → (checked now : ℕ) → Service → Reply × Service
unfolding settle remember notify
process_request m checked now s =
    let s1 = remember m s in
    let sender = m.context.sender_id in
    let (rate_ok, rate_msg) =
      check_rate_limit sender m.context.action (history_of sender s1) checked in
    if not rate_ok
    then (
      refused "rate_limit_exceeded" (or_default rate_msg "") "P4",
      notify m.context (some (rate_violation (or_default rate_msg "") m)) "critical" s1,
    )
    else (let ((result, violation), log) = validate_request m.context now s1.violations_log in
        settle m result violation (record s1 { violations_log = log }))

-- `if x: entries = [e for e in entries if ...]`, for an argument that may be absent
abbrev narrow :
    {A : Type 0} → Option A → (A → AuditEntry → Bool) → List AuditEntry → List AuditEntry
narrow none p entries = entries
narrow (some a) p entries = keep (p a) entries

-- An absent argument, a zero time and an empty text filter nothing.
unfoldable pub get_audit_log :
    (start_time end_time : Option ℕ)
    → (sender_id action : Option String) → Service
    → List AuditEntry
get_audit_log start_time end_time sender_id action s =
    let from_start = narrow start_time (λ t e. eqb t 0 || leb t e.timestamp) s.audit_log in
    let to_end = narrow end_time (λ t e. eqb t 0 || leb e.timestamp t) from_start in
    let of_sender = narrow sender_id (λ i e. i == "" || e.sender_id == i) to_end in
    narrow action (λ a e. a == "" || e.action == a) of_sender

-- `t >= cutoff_time`, with the retention moved to the other side
abbrev pub is_kept : (now days : ℕ) → ℕ → Bool
is_kept now days t = leb now (t + days * 86_400_000_000)

abbrev is_empty : List ℕ → Bool
is_empty [] = true
is_empty (_ ∷ _) = false

abbrev pub clean_history : (now days : ℕ) → Dict (List ℕ) → Dict (List ℕ)
clean_history now days [] = []
clean_history now days ((sender, times) ∷ d) =
    let rest = clean_history now days d in
    let kept = keep (is_kept now days) times in
    if is_empty kept then rest else (sender, kept) ∷ rest

unfoldable pub cleanup_old_data : (now : ℕ) → Service → Service
cleanup_old_data now s = record s {
  audit_log = keep (λ e. is_kept now s.audit_retention_days e.timestamp) s.audit_log;
  request_history = clean_history now s.audit_retention_days s.request_history;
}

unfoldable pub count_senders : List AuditEntry → Dict ℕ → Dict ℕ
count_senders [] d = d
count_senders (e ∷ entries) d =
    count_senders entries (if is_some e.violation then tally e.sender_id d else d)

abbrev keys_from : (threshold : ℕ) → Dict ℕ → List String
keys_from threshold [] = []
keys_from threshold ((k, n) ∷ d) =
    let rest = keys_from threshold d in if leb threshold n then k ∷ rest else rest

unfoldable pub get_high_risk_senders : (threshold : ℕ) → Service → List String
get_high_risk_senders threshold s = keys_from threshold (count_senders s.audit_log [])

abbrev or_normal : List String → List String
or_normal [] = "Система функционирует в пределах нормы." ∷ []
or_normal (r ∷ rs) = r ∷ rs

abbrev only_if : Bool → String → List String
only_if b r = if b then r ∷ [] else []

unfoldable pub critical_recommendation : (critical : ℕ) → String
critical_recommendation critical =
    "Обнаружено "
    ⊕ decimal critical
    ⊕ " критических нарушений. Требуется немедленное расследование."

abbrev pub rate_recommendation : String
rate_recommendation =
    "Высокое количество нарушений rate limit. Рекомендуется пересмотреть лимиты или усилить защиту от DDoS."

-- `denied / total > 0.1` is compared without division, which is the same for the counts of a run.
unfoldable pub generate_recommendations : Metrics → List String
generate_recommendations m =
    let critical = or_default (lookup "critical" m.violations_by_severity) 0 in
    or_normal (
      only_if (ltb 10 (or_default (lookup "P4" m.violations_by_policy) 0)) rate_recommendation
      ++ only_if (ltb 0 critical) (critical_recommendation critical)
      ++ only_if (ltb 0 m.total_requests && ltb m.total_requests (10 * m.denied_requests))
          "Более 10% запросов отклонено. Возможны проблемы с авторизацией или атака.")

-- A call of the service: the message and the two readings of the clock.
abbrev pub Call : Type 0
Call = Message × ℕ × ℕ

-- The service after the messages, in their order.
unfoldable pub serve : List Call → Service → Service
serve [] s = s
serve ((m, checked, now) ∷ calls) s = serve calls (process_request m checked now s).1
