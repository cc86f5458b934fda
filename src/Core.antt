-- ===== src/Core.antt =====
-- core/: the ticket domain.
pub mod TicketJson
pub mod Tools
pub mod ToolRouter
pub mod Duplicates
pub mod Retrieval
pub mod Recommendations
pub mod TicketApi
pub mod TicketActions
pub mod TicketMerge
pub mod Lifecycle
pub mod Outcomes
pub mod Typed
pub mod Hitl
pub mod Sla
pub mod IntentRouter
pub mod Handoff
pub mod KeepsRules
use support_agent_platform.Shared.{}
