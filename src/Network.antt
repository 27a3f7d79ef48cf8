-- ===== src/Network.antt =====
-- src/server/network: the managed-egress side of the sandbox (addresses, destination policy,
-- connection accounting).
pub mod Addresses
pub mod Policy
pub mod Connections
