-- ===== src/Uas/Analytics/Limits.antt =====
-- What the central journal can take of every event.
use sbd_drones_economics.Base.{
  ℕ, zero, suc, ◌≤◌, String, true, false, Option, List, [], ◌∷◌, ◌==◌, Dict, lookup, All, strip,
  contains, or_default, first, lower, ◌≡◌, refl, arith, inl, inr, Bool-cases,
}
use sbd_drones_economics.Uas.Journal.{SecurityEvent}
use sbd_drones_economics.Uas.Analytics.{
  Payload, domains, domain_to_log_service, or_else, severities, known_severity, clip_message,
  build_analytics_event_payload, stable_service_id, security_event_to_analytics_payload,
}

-- `len(text)`
unfoldable pub size : String → ℕ
size String.[] = 0
size (String.◌∷◌ c s) = suc (size s)

size-first : (n : ℕ) (s : String) → size (first n s) ≤ n
unfolding size
size-first zero s = omega arith
size-first (suc n) String.[] = omega arith
size-first (suc n) (String.◌∷◌ c s) = omega (arith, size-first n s)

clip_message-size :
    (message : String)
    → (size (clip_message message) ≤ 1024) × ((clip_message message == "") ≡ false)
unfolding clip_message or_else size
clip_message-size message = elim (Bool-cases (first 1024 message == "")) [
  | inl e ↦ rw (clip_message, or_else, e) (small, refl)
  | inr e ↦ rw (clip_message, or_else, e) (size-first 1024 message, e)
]
  where
    small : size "-" ≤ 1024
    small = omega arith

abbrev services : List String
services = "operator" ∷ "registry" ∷ "regulator" ∷ "insurance" ∷ "aggregator" ∷ "infopanel" ∷ []

-- The entries of the table are services.
lookup-services :
    (key : String) (d : Dict String)
    → All (λ entry. contains services entry.1 ≡ true) d
    → contains services (or_default (lookup key d) "registry") ≡ true
lookup-services key [] h = refl
lookup-services key ((k, v) ∷ d) h = ground (arith, lookup-services key d)

known_severity-severities : (sev : String) → contains severities (known_severity sev) ≡ true
unfolding known_severity
known_severity-severities sev = elim (Bool-cases (contains severities sev)) [
  | inl e ↦ rw (known_severity, e) e
  | inr e ↦ rw (known_severity, e) refl
]

-- What the index of the journal asks of an entry.
pub record IsTakable (entry : Payload) : Type 0 where
  pub id_positive : 1 ≤ entry.service_id
  pub id_short : entry.service_id ≤ 32_767
  pub known_service : contains services entry.service ≡ true
  pub known_level : contains severities entry.severity ≡ true
  pub message_short : size entry.message ≤ 1024
  pub message_there : (entry.message == "") ≡ false

module _ (crc32 : String → ℕ) where
  stable_service_id-bounds :
      (id : String) → (1 ≤ stable_service_id crc32 id) × (stable_service_id crc32 id ≤ 32_767)
  unfolding stable_service_id
  stable_service_id-bounds id = ground arith

  -- Every security event becomes an entry that the index takes: its service identifier is a positive
  -- signed 16-bit number, its service and its severity are among those known, and its message has
  -- between 1 and 1024 characters.
  pub security_event_to_analytics_payload-IsTakable :
      (component_id : String) (instance_id_override : Option String) (ts_iso : String) (now_ms : ℕ)
      (event : SecurityEvent)
      → IsTakable (
          security_event_to_analytics_payload crc32 component_id instance_id_override ts_iso now_ms
            event)
  unfolding security_event_to_analytics_payload build_analytics_event_payload domain_to_log_service
  security_event_to_analytics_payload-IsTakable component_id instance_id_override ts_iso now_ms
        event =
      record {
        id_positive = (stable_service_id-bounds _).0;
        id_short = (stable_service_id-bounds _).1;
        known_service = lookup-services (lower (strip event.source)) domains known_domains;
        known_level = known_severity-severities (lower (or_else event.severity "info"));
        message_short = (clip_message-size _).0;
        message_there = (clip_message-size _).1;
      }
    where
      known_domains : All (λ entry. contains services entry.1 ≡ true) domains
      known_domains = (refl, (refl, (refl, (refl, (refl, (refl, (refl, (refl, (refl, tt)))))))))
