-- ===== src/Uas/Analytics/Tests.antt =====
-- An event on its way to the journal.
use sbd_drones_economics.Base.{ℕ, String, true, false, none, ◌≡◌}
use sbd_drones_economics.Outcome.{Exception}
use sbd_drones_economics.Uas.Journal.{SecurityEvent}
use sbd_drones_economics.Uas.Analytics.{
  Payload, Adapter, HttpOutcome, answered, security_event_to_analytics_payload, send, try_emit,
}
use sbd_drones_economics.Uas.Analytics.Limits.{
  IsTakable, security_event_to_analytics_payload-IsTakable,
}
use sbd_drones_economics.Uas.Analytics.Delivery.{settled, try_emit-send}

abbrev crc32 : String → ℕ
crc32 text = 65_536

abbrev login : SecurityEvent
login = record {
  event_type = "login";
  severity = "FATAL";
  source = "purchase_service";
  subject = "alice";
  details = "";
}

security_event_to_analytics_payload-IsTakable_example :
    IsTakable (security_event_to_analytics_payload crc32 "uas-1" none "2026-01-01" 7 login)
security_event_to_analytics_payload-IsTakable_example =
    security_event_to_analytics_payload-IsTakable crc32 "uas-1" none "2026-01-01" 7 login

abbrev urlopen : String → Payload → HttpOutcome
urlopen url event = answered 503

abbrev str : Exception → String
str e = "database is locked"

abbrev adapter : Adapter
adapter = record { enabled = true; url = "http://journal"; api_key = "key"; client = none }

abbrev entry : Payload
entry = record {
  timestamp = 7;
  event_type = "event";
  service = "operator";
  service_id = 3;
  severity = "info";
  message = "-";
}

try_emit-send_example :
    try_emit urlopen str false true adapter entry none
    ≡ settled str true adapter none (send urlopen false adapter entry none)
try_emit-send_example = try_emit-send urlopen str false true adapter entry none
