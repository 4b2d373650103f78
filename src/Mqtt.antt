-- ===== src/Mqtt.antt =====
-- iotdevice/transport/mqtt: the topics of the MQTT transport, its state, and its operations.
pub mod Topics
pub mod Transport
pub mod Requests
pub mod Sending
pub mod Callbacks
pub mod Port
mod Tests
