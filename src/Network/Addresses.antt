-- ===== src/Network/Addresses.antt =====
-- src/server/network/addresses.ts: IP literals, their canonical text, and which are public.
-- `Parse` and `Format` are the two directions, `Literal` is `parseIpAddress`, `Ranges` are the
-- tables and `Classify` is the classification.
pub mod Parse
pub mod Format
pub mod Literal
pub mod Ranges
pub mod Classify
pub mod Runs
pub mod Octets
pub mod Canonical
pub mod Hextets
pub mod Compression
pub mod Roundtrip
pub mod Shape
pub mod Identity
pub mod Tables
pub mod Scopes
pub mod Global
pub mod Total
mod Tests
