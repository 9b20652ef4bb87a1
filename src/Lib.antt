-- ===== src/Lib.antt =====
-- A verification library for the drone economy of this repository: a company that develops drones
-- (systems/uas_dev_company), the operator that flies them (systems/operator), the insurer
-- (systems/alt_insurer) and the regulator (systems/regulator).
--
-- Parts, by the repository's paths:
-- - Base: Python's texts and their splitting, dictionaries in insertion order, stable sorting, whole
--   numbers for money.
-- - Outcome: exceptions as values. Outcome/Action: a method call, which gives back a result and the
--   state; the state is kept after a raise, since what was written before it stays written.
-- - Uas/Roles, Auth, Goals, Policy: the trusted base of systems/uas_dev_company/src/shared/tcb.
-- - Uas/Users: user_management/user_service.py over a store of rows. Requests is the dispatch of
--   user_management/handlers.py, and a run of requests.
-- - Uas/Company: the tables of shared/storage.py and the ports of shared/integration_adapters.py;
--   Uas/Models: the checks of shared/models.py; Uas/Journal: its events and where they are recorded.
-- - Uas/Certification: firmware_ingestion and certification_service; Uas/Vulnerability:
--   certification_service/critical_vulnerability_service.py.
-- - Uas/Drones and Uas/Registry: drone_registry/registry_service.py; Uas/Purchase:
--   purchase_service/purchase_core.py, which reaches the registry in the same process or through the
--   security monitor (Company.Registry), with the handlers of drone_registry/handlers.py. Checks, Sale and
--   Atomic are about one purchase, Repeat about runs of them.
-- - Uas/Monitor: shared/security_monitor.py, its policies and its handlers; Denial holds the proofs.
-- - Sdk: sdk. Message is messages.py; Component is the dispatch of base_component.py over a state
--   of the component's own, Answers about its answers; SafeBus is safe_bus.py with the monitor of
--   security_monitor.py, Mediation about what passes it.
--   Wpl is wpl_generator_2.py with the parsing of routes by the operator, RoundTrip about both.
-- - Broker: broker. Requests is the table of pending requests, which broker/mqtt/mqtt_system_bus.py and
--   broker/kafka/kafka_system_bus.py treat alike, as a machine whose events are what one thread does
--   between two waits, so that a list of events is an interleaving; Settled, Promise and Progress are about
--   how requests end. Mqtt and Kafka are the buses; each fills Transport, over which the promise of requests
--   is stated. Dispatch is the thread pool; Delivery and Consumers are about callbacks. Of Kafka, subscribe,
--   start and stop are each one step, though they wait inside: no other call comes between their writes.
-- - Uas/Analytics: shared/tcb/journal_policy.py and analytics_adapter/service.py, the entries for the
--   central journal (Limits) and their delivery (Delivery).
-- - Uas/Tokens: shared/jwt_tokens.py, the access tokens of the gateway; Verdicts is about them.
-- - Uas/Guard: shared/component_base.py, the handlers of a worker behind the check of the sender.
-- - Operator/Security: systems/operator/src/security_monitor/src/security_monitor_core.py; Verdicts and
--   Tallies are about its answers and its summary. Operator/Security/Service is
--   security_monitor_service.py, Counts about its metrics and Rate about its rate limit.
-- - Operator/Fleet: systems/operator/src/fleet_manager/src/fleet_manager_core.py. Reservation is about
--   sequences of calls, Permission about single answers. Operator/Fleet/Service is
--   fleet_manager_service.py over this core: Cache is about its reservations,
--   Ledger is about its metrics and history, Search with Fitting and Ranking, and Statistics with Counts, are its
--   other operations.
-- - Operator/Planner: systems/operator/src/mission_planner/src. Plan and Core are
--   mission_planner_core.py, Core/Verdicts about its verdicts; Route, Service and Lifecycle are
--   mission_planner_service.py, with Lifecycle/Sky about the plans that are active together,
--   Steps, Changes and Next about what a call does to the status of a mission, and Course about a call
--   at any point of a run.
-- - Operator/Desk: systems/operator/src/operator_component/src/operator_component.py. Assignment is about
--   selections; Admission puts it together with the regulator, which answers over the sdk.
-- - Operator/Economics and Operator/Proposals: systems/operator/src/business_logic/src, the core and the
--   service.
-- - Insurer: systems/alt_insurer/src/insurance_service/src/insurance_service.py. Premium holds the
--   formulas, Service the handlers; Terms is about policies, History about statistics.
-- - Base/Floats: floats as an abstract type with the operations of the program.
-- - Regulator: systems/regulator/src/regulator_component/src/regulator_component.py.
--
-- The services share one Company: a purchase reads what registration and certification wrote, and
-- a decision of the regulator reaches both the certificates and the copies that the drones hold.
--
-- Parameters, since their code is not here: PBKDF2 and random bytes (Auth), `uuid` and the clock
-- (tokens and `now`), the answers of the regulator and of the drone port and whether a call through
-- the monitor answers (Company.Ports), the levels of a battery and the comparison of dates
-- (Operator.Fleet.Gauge), floats and the functions of `math` (Base.Floats), Base64, HMAC and JSON
-- (Tokens.Codec), how floats are written and read (Wpl), dates with and without a time zone
-- (Fleet.Service.Calendar), CRC-32 and the HTTP call (Analytics), and what the network and the
-- client libraries
-- do during a call (Mqtt.Network, Kafka.Network). A call of a bus waits for its future without a
-- bound in the model: running out of time is an event that may come at any point. Every loop is
-- structural recursion on a list or a text; only the digits of a number are taken on fuel, one more
-- than the number, which is more than it has digits.
--
-- Not modelled: the client libraries of MQTT and Kafka and what travels between buses, the HTTP gateway,
-- files, SQL as a language, time stamps of rows, JSON texts, the web interface, and the operator's
-- clients.
pub mod Base
pub mod Outcome
pub mod Sdk
pub mod Uas
pub mod Operator
pub mod Broker
pub mod Insurer
pub mod Regulator
