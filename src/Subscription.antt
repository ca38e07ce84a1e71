-- ===== src/Subscription.antt =====
-- src/subscription: what a subscription server sends.
pub mod Base64
pub mod Types
pub mod Uri
pub mod UserInfo
pub mod Numbers
pub mod Payload
pub mod Vmess
pub mod Parts
pub mod Links
mod Tests
