-- ===== src/Uas/Journal.antt =====
-- SecurityEvent of shared/models.py, and the journal that the services write to. A service has a
-- journal or none; `try_record` of a journal takes every event that is built. Building an event
-- raises where a required text is blank, and that happens before `try_record` is entered.
use sbd_drones_economics.Base.{
  String, Option, none, some, List, [], ◌∷◌, ◌++◌, ◌==◌, ◌⊕◌, strip, ◌≡◌, refl, false, arith,
}
use sbd_drones_economics.Outcome.{Result, ok, value_error, raise_if, ◌>>=◌, ◌>>◌}

-- `_require`
unfoldable pub require_text : String → String → Result String
require_text value field_name = do
  raise_if (strip value == "") (value_error (field_name ⊕ " is required"))
  ok (strip value)

pub record SecurityEvent : Type 0 where
  pub event_type : String
  pub severity : String
  pub source : String
  pub subject : String
  pub details : String

unfoldable pub security_event : SecurityEvent → Result SecurityEvent
unfolding require_text
security_event e = do
  _ ← require_text e.event_type "event_type"
  _ ← require_text e.severity "severity"
  _ ← require_text e.source "source"
  _ ← require_text e.subject "subject"
  ok e

abbrev pub Journal : Type 0
Journal = Option (List SecurityEvent)

-- `if self.security_journal: self.security_journal.try_record(SecurityEvent(...))`
unfoldable pub record_event :
    Journal → (event_type severity source subject details : String) → Result Journal
record_event none event_type severity source subject details = ok none
record_event (some events) event_type severity source subject details = do
  e ← security_event (record {
    event_type = event_type;
    severity = severity;
    source = source;
    subject = subject;
    details = details;
  })
  ok (some (events ++ e ∷ []))

abbrev pub recorded : Journal → SecurityEvent → Journal
recorded none e = none
recorded (some events) e = some (events ++ e ∷ [])

-- An event with its four texts is recorded.
pub record_event-ok :
    (j : Journal) (event_type severity source subject details : String)
    → (strip event_type == "") ≡ false
    → (strip severity == "") ≡ false
    → (strip source == "") ≡ false
    → (strip subject == "") ≡ false
    → record_event j event_type severity source subject details
      ≡ ok (
          recorded j (record {
            event_type = event_type;
            severity = severity;
            source = source;
            subject = subject;
            details = details;
          }))
unfolding record_event security_event
record_event-ok none t s o u d ht hs ho hu = refl
record_event-ok (some events) t s o u d ht hs ho hu = ground arith
