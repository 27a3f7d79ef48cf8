-- ===== src/Search.antt =====
-- src/server/search: what is indexed of a conversation. `Chunks` splits the messages.
pub mod CodePoints
pub mod Surrogates
pub mod Boundaries
pub mod Chunks
