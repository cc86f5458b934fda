-- ===== src/Openclaw.antt =====
-- openclaw_adapter/: signatures, sessions, replay protection and retries at the ingress.
pub mod SessionMapper
pub mod ReplayGuard
pub mod Bindings
pub mod Replays
pub mod Window
pub mod RetryManager
pub mod OutboundSender
pub mod SignatureValidator
pub mod InboundHandler
pub mod Gateway
use support_agent_platform.Shared.{}
