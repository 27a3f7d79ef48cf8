-- ===== src/Client.antt =====
-- src/web/src/api/state.ts: the state of the browser client, and the reducer of the messages that it
-- receives and of its user's actions.
pub mod Messages
pub mod Projection
pub mod State
pub mod Conversations
pub mod JobRuns
pub mod Workspaces
pub mod Reducer
pub mod Cases
pub mod Identity
pub mod Every
pub mod Untouched
pub mod Preserved
pub mod Wellformed
pub mod Replays
pub mod Convergence
pub mod Progress
pub mod Snapshots
pub mod Scope
pub mod Entries
pub mod Transcript
pub mod Streaming
pub mod Runs
mod Tests
pub mod Scoped
