-- ===== src/Channels.antt =====
-- channel_adapters/: how the payload of a channel becomes a message, and a reply a payload.
pub mod Payload
pub mod Signatures
pub mod Wecom
pub mod Feishu
pub mod Telegram
pub mod Laws
pub mod Authentic
