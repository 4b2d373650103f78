-- ===== src/Device.antt =====
-- The device SDK, package iotdevice: the dispatchers of incoming messages and the client.
pub mod Once
pub mod Mux
pub mod Methods
mod Tests
pub mod Client
pub mod New
