-- ===== src/Workflows.antt =====
-- workflows/: the commands of agents.
pub mod Commands
pub mod CollabPush
pub mod CaseCollab
