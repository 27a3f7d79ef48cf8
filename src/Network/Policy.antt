-- ===== src/Network/Policy.antt =====
-- src/server/network/policy.ts: which destinations a sandboxed agent may reach. `Hosts` is the
-- normalisation of a host, `Patterns` that of an administrator's pattern, and `Decision` compiles a
-- policy and decides by it.
pub mod Hosts
pub mod Patterns
pub mod Decision
pub mod Based
pub mod Suffixes
pub mod Safety
mod Runs
mod Tests
