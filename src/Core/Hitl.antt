-- ===== src/Core/Hitl.antt =====
-- core/hitl/: approvals of risky actions by a person.
pub mod ApprovalPolicy
pub mod PendingActions
pub mod HandoffContext
pub mod Timeouts
pub mod ApprovalRuntime
pub mod RoundTrip
pub mod Replaced
pub mod Blocked
pub mod Keeping
pub mod Listings
pub mod Decisions
pub mod Chosen
pub mod Decided
pub mod DecidedRows
pub mod Verdicts
pub mod Final
use support_agent_platform.Shared.{}
