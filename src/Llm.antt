-- ===== src/Llm.antt =====
-- llm/: language models.
pub mod FallbackRouter
use support_agent_platform.Shared.{}
