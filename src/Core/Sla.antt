-- ===== src/Core/Sla.antt =====
-- core/sla_engine.py: service levels of tickets.
pub mod Rules
pub mod Engine
pub mod Choice
pub mod Laws
pub mod Limits
use support_agent_platform.Shared.{}
