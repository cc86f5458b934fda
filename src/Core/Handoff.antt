-- ===== src/Core/Handoff.antt =====
-- core/handoff_manager.py: when a ticket is handed to a person.
pub mod Rules
pub mod Manager
pub mod Triggers
pub mod Laws
use support_agent_platform.Shared.{}
