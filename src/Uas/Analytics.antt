-- ===== src/Uas/Analytics.antt =====
-- What goes to the central journal: shared/tcb/journal_policy.py makes the entry, and
-- analytics_adapter/service.py delivers it. CRC-32, the clock, the HTTP call and the database's
-- failures are arguments.
pub mod Limits
pub mod Delivery
mod Tests
use Prim.Native.Nat.{◌%◌}
use sbd_drones_economics.Base.{
  ℕ, String, Bool, true, false, not, ◌&&◌, if◌then◌else◌, Option, none, some, List, [], ◌∷◌, ◌++◌,
  ◌==◌, ◌⊕◌, Dict, lookup, contains, or_default, strip, lower, first, join, leb, ltb, is_some,
}
use sbd_drones_economics.Outcome.{Result, ok, err, Exception, operational_error, ◌>>=◌}
use sbd_drones_economics.Uas.Journal.{SecurityEvent}

-- `_DOMAIN_TO_LOG_SERVICE`
abbrev pub domains : Dict String
domains =
    ("user_management", "operator")
    ∷ ("firmware_ingestion", "registry")
    ∷ ("certification_service", "regulator")
    ∷ ("drone_registry", "registry")
    ∷ ("purchase_service", "insurance")
    ∷ ("audit_log", "aggregator")
    ∷ ("analytics_adapter", "aggregator")
    ∷ ("api_gateway", "infopanel")
    ∷ ("security_monitor", "regulator")
    ∷ []

unfoldable pub domain_to_log_service : String → String
domain_to_log_service source = or_default (lookup (lower (strip source)) domains) "registry"

-- `text or default`
unfoldable pub or_else : String → String → String
or_else text default = if text == "" then default else text

-- `instance_id`, with the value of COMPONENT_ID
unfoldable pub instance_id : String → String
unfolding or_else
instance_id component_id = or_else (strip component_id) "local-uas"

-- The entry; `apiVersion` is always `v1.0.0`.
pub record Payload : Type 0 where
  pub timestamp : ℕ
  pub event_type : String
  pub service : String
  pub service_id : ℕ
  pub severity : String
  pub message : String

abbrev pub severities : List String
severities = "debug" ∷ "info" ∷ "notice" ∷ "warning" ∷ "error" ∷ "critical" ∷ "alert" ∷ []

unfoldable pub known_severity : String → String
known_severity sev = if contains severities sev then sev else "info"

-- `str(message or "")[:1024] or "-"`
unfoldable pub clip_message : String → String
unfolding or_else
clip_message message = or_else (first 1024 message) "-"

-- `build_analytics_event_payload`, at a time in milliseconds
unfoldable pub build_analytics_event_payload :
    (message severity service : String) (service_id now_ms : ℕ) → Payload
unfolding clip_message
build_analytics_event_payload message severity service service_id now_ms = record {
  timestamp = now_ms;
  event_type = "event";
  service = service;
  service_id = service_id;
  severity = severity;
  message = clip_message message;
}

module _ (crc32 : String → ℕ) where
  -- `zlib.crc32(...) & 0x7FFF`, and 1 in place of 0
  unfoldable pub stable_service_id : String → ℕ
  stable_service_id instance_id =
      let raw = crc32 instance_id % 32_768 in if ltb 0 raw then raw else 1

  unfoldable pub message_of : (ts_iso inst severity : String) → SecurityEvent → String
  unfolding join
  message_of ts_iso inst severity event = join " " (
      ("ts_utc=" ⊕ ts_iso)
      ∷ ("instance_id=" ⊕ inst)
      ∷ event.event_type
      ∷ ("severity=" ⊕ severity)
      ∷ ("source=" ⊕ event.source)
      ∷ ("subject=" ⊕ event.subject)
      ∷ (if event.details == "" then [] else ("details=" ⊕ first 400 event.details) ∷ []))

  unfoldable pub security_event_to_analytics_payload :
      (component_id : String) (instance_id_override : Option String) (ts_iso : String) (now_ms : ℕ)
      → SecurityEvent
      → Payload
  unfolding or_else instance_id stable_service_id message_of known_severity
      build_analytics_event_payload domain_to_log_service
  security_event_to_analytics_payload component_id instance_id_override ts_iso now_ms event =
      build_analytics_event_payload (message_of ts_iso inst severity event)
        (known_severity (lower severity)) (domain_to_log_service event.source)
        (stable_service_id (inst ⊕ ":" ⊕ event.source)) now_ms
    where
      severity : String
      severity = or_else event.severity "info"

      inst : String
      inst = or_else (strip (or_default instance_id_override "")) (instance_id component_id)

-- The row of `analytics_delivery`.
pub record Row : Type 0 where
  pub enabled : Bool
  pub url : String
  pub last_status : String
  pub last_error : String

pub record PostReply : Type 0 where
  pub is_ok : Bool
  pub error_text : Option String

-- What `urlopen` does.
pub data HttpOutcome : Type 0 where
  answered : ℕ → HttpOutcome
  http_error url_error : String → HttpOutcome
  raises : Exception → HttpOutcome

pub record Adapter : Type 0 where
  pub enabled : Bool
  pub url : String
  pub api_key : String
  pub client : Option (Payload → Result PostReply)

abbrev pub failing : String → PostReply
failing text = record { is_ok = false; error_text = some text }

-- `INSERT OR REPLACE`, on a database that works or raises
unfoldable pub write : Bool → Row → Option Row → Result (Unit {0}) × Option Row
write works row table =
    if works then (ok tt, some row) else (err (operational_error "database is locked"), table)

unfoldable pub disabled_row : Adapter → Row
disabled_row a = record { enabled = false; url = a.url; last_status = "disabled"; last_error = "" }

unfoldable pub delivery_row : Adapter → PostReply → Row
delivery_row a reply = record {
  enabled = a.enabled;
  url = a.url;
  last_status = if reply.is_ok then "delivered" else "failed";
  last_error = first 2000 (or_default reply.error_text "");
}

unfoldable pub failed_row : Adapter → String → Row
failed_row a text = record {
  enabled = a.enabled;
  url = a.url;
  last_status = "failed";
  last_error = first 2000 text;
}

pub record Sent : Type 0 where
  pub delivered : Bool
  pub status : String
  pub error_text : String

module _ (str : Exception → String) where
  -- The handler of `try_emit`: its own write may fail as well, which is passed over.
  unfoldable pub on_failure : Bool → Adapter → Exception → Option Row → Option Row
  unfolding write failed_row
  on_failure works a e table = (write works (failed_row a (str e)) table).1

  unfoldable pub after_write : Bool → Adapter → Result (Unit {0}) × Option Row → Option Row
  unfolding on_failure
  after_write works a (ok _, table) = table
  after_write works a (err e, table) = on_failure works a e table

module _ (urlopen : (url : String) → Payload → HttpOutcome) where
  unfoldable pub reply_of : HttpOutcome → Result PostReply
  reply_of (answered status) =
      ok (record { is_ok = leb 200 status && ltb status 300; error_text = none })
  reply_of (http_error reason) = ok (failing reason)
  reply_of (url_error reason) = ok (failing reason)
  reply_of (raises e) = err e

  unfoldable pub post_event : Adapter → Payload → Result PostReply
  unfolding reply_of
  post_event a event = elim a.client [
    | some post ↦ post event
    | none ↦
        if not a.enabled
        then ok (failing "analytics disabled")
        else if a.url == ""
        then ok (failing "DRONE_ANALYTICS_URL is empty")
        else if a.api_key == ""
        then ok (failing "DRONE_ANALYTICS_API_KEY is empty")
        else reply_of (urlopen (a.url ⊕ "/log/event") event)
  ]

  -- `send`, where the write of the row works or not
  unfoldable pub send : Bool → Adapter → Payload → Option Row → Result Sent × Option Row
  unfolding post_event write disabled_row delivery_row
  send works a event table =
      if not a.enabled && not (is_some a.client)
      then (let (written, later) = write works (disabled_row a) table in
          (
            written >>= λ _.
                ok (record { delivered = false; status = "disabled"; error_text = "" }),
            later,
          ))
      else elim (post_event a event) [
        | err e ↦ (err e, table)
        | ok reply ↦
            let (written, later) = write works (delivery_row a reply) table in
            (
              written >>= λ _. ok (record {
                delivered = reply.is_ok;
                status = if reply.is_ok then "delivered" else "failed";
                error_text = or_default reply.error_text "";
              }),
              later,
            )
      ]

  -- `try_emit`, with the texts of exceptions, where the first write and that of the handler work or not
  unfoldable pub try_emit :
      (str : Exception → String) (works handler_works : Bool)
      → Adapter
      → Payload
      → Option Row
      → Option Row
  unfolding post_event write disabled_row delivery_row on_failure after_write
  try_emit str works handler_works a event table =
      if not a.enabled && not (is_some a.client)
      then after_write str handler_works a (write works (disabled_row a) table)
      else elim (post_event a event) [
        | err e ↦ on_failure str handler_works a e table
        | ok reply ↦ after_write str handler_works a (write works (delivery_row a reply) table)
      ]
