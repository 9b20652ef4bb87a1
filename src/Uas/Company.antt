-- ===== src/Uas/Company.antt =====
-- The data of the company: the tables of shared/storage.py and the ports of
-- shared/integration_adapters.py. Goals in JSON columns are lists of texts, money is in cents.
use sbd_drones_economics.Base.{ℕ, String, ℤ, Bool, List, Option, Dict}
use sbd_drones_economics.Outcome.{Exception, err}
use sbd_drones_economics.Outcome.Action.{Action, gets, lift, modify, when, ◌>>=◌, ◌>>◌}
use sbd_drones_economics.Uas.Journal.{Journal, record_event}

-- a row of `firmware_versions`
pub record Firmware : Type 0 where
  pub firmware_id : String
  pub supplier : String
  pub drone_type : String
  pub version : String
  pub firmware_hash : String
  pub source_repo_url : String
  pub source_commit : String
  pub security_goals : List String
  pub authenticity_proof : String
  pub submitted_by : String

-- a row of `certification_requests`
pub record CertificationRequest : Type 0 where
  pub request_id : String
  pub firmware_id : String
  pub requested_by : String
  pub status : String
  pub certification_cost : ℤ

-- a row of `certificates`; `firmware` holds its copies of the firmware's columns
pub record Certificate : Type 0 where
  pub certificate_id : String
  pub firmware_id : String
  pub security_goals : List String
  pub signed_by : String
  pub certificate_status : String
  pub effective_security_goals : List String
  pub firmware : Firmware

-- a row of `vulnerability_incidents`
pub record Incident : Type 0 where
  pub firmware_id : String
  pub incident_type : String
  pub description : String
  pub correlation_id : String
  pub notification_status : String
  pub regulator_decision : String

-- a row of `drones`
pub record Drone : Type 0 where
  pub serial_number : String
  pub drone_type : String
  pub firmware_id : String
  pub certificate_id : String
  pub security_goals : List String
  pub price : ℤ
  pub status : String
  pub registration_id : String
  pub registration_status : String
  pub registration_version : ℕ
  pub regulator_reason : String
  pub owner_operator_id : String
  pub last_regulator_correlation_id : String
  pub hardware_config : String
  pub destination_droneport_id : String
  pub delivery_status : String
  pub delivered_at : String
  pub physical_safety_responsibility : String
  pub certificate_status : String
  pub certificate_effective_security_goals : List String
  pub certificate_security_goals : List String
  pub firmware_supplier : String
  pub firmware_hash : String
  pub firmware_security_goals : List String
  pub certification_cost : ℤ

-- a row of `purchases`
pub record PurchaseOrder : Type 0 where
  pub order_id : String
  pub serial_number : String
  pub operator_username : String

-- What the operator's fleet is told.
pub data FleetMessage : Type 0 where
  reregistered :
      (correlation_id registration_id : String)
      → (registration_version : ℕ) → (serial_number owner certificate_id firmware_id : String)
      → (security_goals : List String) → FleetMessage
  firmware_decision : (firmware_id correlation_id decision : String) → FleetMessage

pub record Company : Type 0 where
  pub firmware : Dict Firmware
  pub requests : List CertificationRequest
  pub certificates : Dict Certificate
  pub incidents : List Incident
  pub drones : Dict Drone
  pub purchases : Dict PurchaseOrder
  pub journal : Journal
  pub fleet : List FleetMessage

abbrev pub note : (event_type severity source subject details : String) → Action Company Unit
note event_type severity source subject details = do
  j ← gets (λ c. c.journal)
  j' ← lift (record_event j event_type severity source subject details)
  modify (λ c. record c { journal = j' })

-- Replies of the regulator and of the drone port; an absent text is the empty one.
pub record CertifyReply : Type 0 where
  pub status : String
  pub reason_code : Option String
  pub certificate_id : String
  pub signed_by : String
  pub security_goals : List String

pub record RegisterReply : Type 0 where
  pub status : String
  pub reason_code : String
  pub registration_id : Option String
  pub registration_version : ℕ

pub record ReregisterReply : Type 0 where
  pub status : String
  pub reason_code : String
  pub registration_version : ℕ
  pub security_goals : Option (List String)

-- The regulator's decision on a firmware.
pub record Decision : Type 0 where
  pub decision : String
  pub effective_security_goals : List String

pub record DeliveryReply : Type 0 where
  pub status : String
  pub reason_code : String

-- `RegulatorPort`; of each message the model keeps what identifies its subject.
pub record Regulator : Type 0 where
  pub certify_firmware : (correlation_id actor : String) → Firmware → CertifyReply
  pub register_drone_instance :
      (correlation_id actor serial_number firmware_id certificate_id : String)
      → (security_goals : List String) → RegisterReply
  pub reregister_drone_instance :
      (correlation_id registration_id serial_number from_owner_id to_owner_id order_id : String)
      → ReregisterReply
  pub report_critical_vulnerability :
      (correlation_id firmware_id description incident_type : String) → Decision

-- `DronePortPort`
abbrev pub DronePort : Type 0
DronePort = (serial_number model port_id : String) → DeliveryReply

-- A call of the registry through the security monitor: it answers, or it raises, before the registry
-- did what is asked or after it did.
pub data ProxyCall : Type 0 where
  answers : ProxyCall
  raises : (applied : Bool) → Exception → ProxyCall

abbrev pub through : ProxyCall → Action Company Unit → Action Company Unit
through answers act = act
through (raises applied e) act = do when applied act; lift (err e)

-- How the purchases reach the registry: as `registry` in the same process, by `monitor_proxy_call`
-- with the outcome of its three calls, or not at all.
pub data Registry : Type 0 where
  own_registry : Registry
  by_monitor : (reads sells delivers : ProxyCall) → Registry
  no_registry : Registry

-- What a service is connected to; no fleet, no port, no regulator or no `registry_apply` is `none`.
pub record Ports : Type 0 where
  pub regulator : Option Regulator
  pub drone_port : Option DronePort
  pub has_fleet : Bool
  pub registry : Registry
  pub registry_apply : Option ProxyCall
