-- ===== src/Signaling.antt =====
-- fubble/signaling: the messages of the signaling protocol, the devices that the server pairs, the
-- server's table of registered devices, and the clients.
pub mod Message
pub mod Device
pub mod Handler
pub mod Client
pub mod Json
pub mod ReadLoop
