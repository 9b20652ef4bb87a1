-- ===== src/Broker.antt =====
-- src/broker: the message buses over MQTT and Kafka, and the requests that wait on them.
pub mod Requests
pub mod Transport
pub mod Dispatch
pub mod Mqtt
pub mod Kafka
mod Tests
