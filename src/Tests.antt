-- ===== src/Tests.antt =====
-- The theorems at concrete inputs.
mod Stores
mod Completions
mod Routing
mod Delivery
mod Levels
mod Approvals
mod Decisions
mod Listings
mod Outcomes
mod Replays
mod Lifecycle
mod Commands
mod Ingress
mod Tools
mod Similar
mod Knowledge
use support_agent_platform.Shared.{}
