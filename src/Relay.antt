-- ===== src/Relay.antt =====
-- internal/relay: the store of approval requests and the two HTTP handlers over it.
pub mod Store
pub mod Server
pub mod Client
pub mod Cases
