-- ===== src/Protocol.antt =====
-- src/shared/protocol.ts and src/shared/jobs.ts: what the server tells its clients, as data. Strings
-- are texts; a value that the programs only carry, such as the arguments of a tool call, is the text
-- of its JSON.
pub mod Messages
pub mod Conversations
pub mod Events
pub mod JobRuns
